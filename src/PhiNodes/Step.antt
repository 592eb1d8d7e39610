-- ===== src/PhiNodes/Step.antt =====
-- What moving one node does to the nodes of the action block and of its predicate block.
use mem_opt.Common.{
  ℕ, ◌≡◌, ◌≢◌, refl, sym, ap, some, List, [], ◌∷◌, ◌++◌, Memᴰ, ==_ne, ==_self, ◌>>=◌, All, map,
}
use mem_opt.PhiNodes.{Phi, PhiView, extend, rename_value, rename, without, find_phi, move_phi}

-- The value is none of the incoming ones.
abbrev pub Avoids : ℕ → List (ℕ × ℕ) → Type 0
Avoids n is = All (λ i. i.0 ≢ n) is

-- The value is no node of the list, and no incoming value of one.
abbrev pub Off : ℕ → List Phi → Type 0
Off n ps = All (λ p. (p.node ≢ n) × All (λ i. i.0 ≢ n) p.incoming) ps

pub Off-append : (n : ℕ) (ps qs : List Phi) → Off n ps → Off n qs → Off n (ps ++ qs)
Off-append n [] qs h k = k
Off-append n (p ∷ ps) qs (h, hs) k = (h, Off-append n ps qs hs k)

map-extend : (n : ℕ) (i : ℕ × ℕ) (ps : List Phi) → Off n ps → map (extend n i) ps ≡ ps
map-extend n i [] h = refl
map-extend n i (p ∷ ps) ((h, _), hs) =
    rw (==_ne p.node n h) (ap (λ l. p ∷ l) (map-extend n i ps hs))

map-rename_value :
    (n t : ℕ) (is : List (ℕ × ℕ)) → All (λ i. i.0 ≢ n) is → map (rename_value n t) is ≡ is
map-rename_value n t [] h = refl
map-rename_value n t (i ∷ is) (h, hs) =
    rw (==_ne i.0 n h) (ap (λ l. i ∷ l) (map-rename_value n t is hs))

rename-Off : (n t : ℕ) (p : Phi) → All (λ i. i.0 ≢ n) p.incoming → rename n t p ≡ p
rename-Off n t p h =
    ap (λ l. record { node = p.node; incoming = l }) (map-rename_value n t p.incoming h)

map-rename : (n t : ℕ) (ps : List Phi) → Off n ps → map (rename n t) ps ≡ ps
map-rename n t [] h = refl
map-rename n t (p ∷ ps) ((_, h), hs) =
    rw (rename-Off n t p h) (ap (λ l. p ∷ l) (map-rename n t ps hs))

without-Off : (n : ℕ) (ps : List Phi) → Off n ps → without n ps ≡ ps
without-Off n [] h = refl
without-Off n (p ∷ ps) ((h, _), hs) = rw (==_ne p.node n h) (ap (λ l. p ∷ l) (without-Off n ps hs))

-- A node behind others that are not it.
find_phi-append :
    (p : Phi) (ps qs : List Phi) → Off p.node ps → find_phi p.node (ps ++ p ∷ qs) ≡ some p
find_phi-append p [] qs h = rw (==_self p.node) refl
find_phi-append p (x ∷ ps) qs ((h, _), hs) = rw (==_ne x.node p.node h) (find_phi-append p ps qs hs)

taken :
    (p : Phi) (t : ℕ) (ps qs : List Phi)
    → Off p.node ps
    → Off p.node qs
    → without p.node (map (rename p.node t) (ps ++ p ∷ qs)) ≡ ps ++ qs
taken p t [] qs h k = rw (==_self p.node, map-rename p.node t qs k) (without-Off p.node qs k)
taken p t (x ∷ ps) qs ((h, hi), hs) k =
    rw (rename-Off p.node t x hi, ==_ne x.node p.node h) (ap (λ l. x ∷ l) (taken p t ps qs hs k))

module _ {State : Type 0} (V : PhiView State) where
  open V use {phis, preds, create_phi, add_incoming, replace_all_uses_with, remove}

  -- A new node is off every list of nodes.
  Off-new : (b : ℕ) (s : State) (c : ℕ) (l : List Phi) → phis s c ≡ l → Off ((create_phi b s).0) l
  Off-new b s c l e = each l (λ p m. V.create_phi_new b s c p (rw e m))
    where
      each :
          (ps : List Phi)
          → ((p : Phi)
              → Memᴰ p ps
              → (p.node ≢ (create_phi b s).0) × All (λ i. i.0 ≢ (create_phi b s).0) p.incoming)
          → Off ((create_phi b s).0) ps
      each [] h = tt
      each (p ∷ ps) h = (h p (Memᴰ.head refl), each ps (λ x m. h x (Memᴰ.tail m)))

  module _ (q a : ℕ) (apart : q ≢ a) (s : State) (front rest old : List Phi) (p : Phi) (v w : ℕ × ℕ)
      (more : List (ℕ × ℕ)) (b c : ℕ) (bs : List ℕ) (at_a : phis s a ≡ front ++ p ∷ rest)
      (at_q : phis s q ≡ old) (values : p.incoming ≡ v ∷ w ∷ more) (two : preds s q ≡ b ∷ c ∷ bs)
      (off_front : Off p.node front) (off_rest : Off p.node rest) (off_old : Off p.node old)
      (off_v : v.0 ≢ p.node) (off_w : w.0 ≢ p.node) where
    abbrev d : ℕ
    d = (create_phi q s).0

    abbrev s2 : State
    s2 = add_incoming d w.0 c (add_incoming d v.0 b (create_phi q s).1)

    abbrev e : ℕ
    e = (create_phi a s2).0

    abbrev pub s5 : State
    s5 = remove p.node (replace_all_uses_with p.node e (add_incoming e d q (create_phi a s2).1))

    -- The node in the predicate block, and the one in the action block.
    abbrev pred_phi : Phi
    pred_phi = record { node = d; incoming = (v.0, b) ∷ (w.0, c) ∷ [] }

    abbrev new_phi : Phi
    new_phi = record { node = e; incoming = (d, q) ∷ [] }

    abbrev pub mine : List Phi
    mine = front ++ p ∷ rest

    move_phi_step : move_phi V q a p.node s ≡ some s5
    unfolding move_phi
    move_phi_step = rw (at_a) (
        rw (find_phi-append p front rest off_front, ◌>>=◌)
          (rw (values) (rw (V.preds-create_phi, two) refl)))

    s2_q : phis s2 q ≡ pred_phi ∷ old
    s2_q =
        rw (V.phis-add_incoming, V.phis-add_incoming, V.phis-create_phi, ==_self q, at_q)
          (rw (==_self d) (
            rw (==_self d) (
              ap (λ l. pred_phi ∷ l)
                (rw (map-extend d (v.0, b) old (Off-new q s q old at_q))
                  (map-extend d (w.0, c) old (Off-new q s q old at_q))))))

    s2_a : phis s2 a ≡ mine
    s2_a =
        rw (V.phis-add_incoming, V.phis-add_incoming, V.phis-create_phi, ==_ne q a apart, at_a)
          (rw (map-extend d (v.0, b) mine (Off-new q s a mine at_a))
            (map-extend d (w.0, c) mine (Off-new q s a mine at_a)))

    Off-mine : Off d mine
    Off-mine = Off-new q s a mine at_a

    Off-e-mine : Off e mine
    Off-e-mine = Off-new a s2 a mine s2_a

    Off-e_q : Off e (pred_phi ∷ old)
    Off-e_q = Off-new a s2 q (pred_phi ∷ old) s2_q

    middle : (n : ℕ) (ps qs : List Phi) → Off n (ps ++ p ∷ qs) → p.node ≢ n
    middle n [] qs ((h, _), hs) = h
    middle n (x ∷ ps) qs (h, hs) = middle n ps qs hs

    s5_a : phis s5 a ≡ new_phi ∷ front ++ rest
    s5_a =
        rw
          (
            V.phis-remove,
            V.phis-replace_all_uses_with,
            V.phis-add_incoming,
            V.phis-create_phi,
            ==_self a,
            s2_a,
          )
          (rw (==_self e, map-extend e (d, q) mine Off-e-mine)
            (rw
              (
                ==_ne e p.node (λ z. middle e front rest Off-e-mine (sym z)),
                ==_ne d p.node (λ z. middle d front rest Off-mine (sym z)),
              )
              (ap (λ l. new_phi ∷ l) (taken p e front rest off_front off_rest))))

    s5_q : phis s5 q ≡ pred_phi ∷ old
    s5_q =
        rw
          (
            V.phis-remove,
            V.phis-replace_all_uses_with,
            V.phis-add_incoming,
            V.phis-create_phi,
            ==_ne a q (λ z. apart (sym z)),
            s2_q,
          )
          (simp (
            ==_ne d e Off-e_q.0.0,
            map-extend e (d, q) old Off-e_q.1,
            ==_ne v.0 p.node off_v,
            ==_ne w.0 p.node off_w,
            map-rename p.node e old off_old,
            ==_ne d p.node (λ z. middle d front rest Off-mine (sym z)),
            without-Off p.node old off_old,
          ))

    s5_preds : (x : ℕ) → preds s5 x ≡ preds s x
    s5_preds x =
        rw
          (
            V.preds-remove, V.preds-replace_all_uses_with, V.preds-add_incoming, V.preds-create_phi,
            V.preds-add_incoming, V.preds-add_incoming, V.preds-create_phi,
          )
          refl

    -- The new nodes x and y, which are off the old ones.
    pub move_phi_lem :
        (x : ℕ) × (y : ℕ) × (s' : State) × (move_phi V q a p.node s ≡ some s')
        × (phis s' a ≡ record { node = y; incoming = (x, q) ∷ [] } ∷ front ++ rest)
        × (phis s' q ≡ record { node = x; incoming = (v.0, b) ∷ (w.0, c) ∷ [] } ∷ old)
        × ((x : ℕ) → preds s' x ≡ preds s x)
        × Off x mine
        × Off y mine
    move_phi_lem = (d, e, s5, move_phi_step, s5_a, s5_q, s5_preds, Off-mine, Off-e-mine)
