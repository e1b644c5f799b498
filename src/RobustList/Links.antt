-- ===== src/RobustList/Links.antt =====
-- The linked mutexes as a list, and what adding and removing one does to it.
use thoth_ipc.Base.{
  ℕ, zero, suc, ◌<◌, ◌≡◌, ◌≢◌, ◌⊎◌, inl, inr, refl, sym, ap, subst, ◌∙◌, arith, true, false, List,
  [], ◌∷◌, ◌++◌, length, ◌==◌, ==_ne, ℕ_discrete, update, update_ne, update_self,
}
use thoth_ipc.RobustList.{Memory, set_next, set_prev, robust_op_add, robust_op_del, walk}

-- `x` is none of `xs`.
abbrev pub NotIn : ℕ → List ℕ → Type 0
NotIn x [] = Unit
NotIn x (y ∷ ys) = (x ≢ y) × NotIn x ys

abbrev pub AllDiffer : List ℕ → Type 0
AllDiffer [] = Unit
AllDiffer (x ∷ xs) = NotIn x xs × AllDiffer xs

-- From `p` on, the links lead through `xs` to the head, and back to `p`.
abbrev pub Linked : Memory → ℕ → ℕ → List ℕ → Type 0
Linked mem head p [] = mem.next p ≡ head
Linked mem head p (x ∷ xs) = (mem.next p ≡ x) × (mem.prev x ≡ p) × Linked mem head x xs

-- The mutexes linked to the head are `xs`, each once.
pub record IsRobust (mem : Memory) (head : ℕ) (xs : List ℕ) : Type 0 where
  pub linked : Linked mem head head xs
  pub differ : AllDiffer (head ∷ xs)

-- Links that change elsewhere, at `a`, `a'`, `b` and `b'`, leave a part of the list.
kept-Linked :
    (mem mem' : Memory) (head p : ℕ) (xs : List ℕ) (a a' b b' : ℕ)
    → ((q : ℕ) → a ≢ q → a' ≢ q → mem'.next q ≡ mem.next q)
    → ((q : ℕ) → b ≢ q → b' ≢ q → mem'.prev q ≡ mem.prev q)
    → NotIn a (p ∷ xs)
    → NotIn a' (p ∷ xs)
    → NotIn b xs
    → NotIn b' xs
    → Linked mem head p xs
    → Linked mem' head p xs
kept-Linked mem mem' head p [] a a' b b' hn hp na na' nb nb' l = hn p na.0 na'.0 ∙ l
kept-Linked mem mem' head p (x ∷ xs) a a' b b' hn hp (nap, na) (nap', na') (nbx, nb) (nbx', nb')
      (ln, lp, l) =
    (
      hn p nap nap' ∙ ln,
      hp x nbx nbx' ∙ lp,
      kept-Linked mem mem' head x xs a a' b b' hn hp na na' nb nb' l,
    )

-- Adding
module _ (mem : Memory) (head x : ℕ) where
  abbrev added : Memory
  added = set_next (set_next (set_prev mem x head) x (mem.next head)) head x

  added_at_x : head ≢ x → added.next x ≡ mem.next head
  added_at_x ne =
      update_ne (update mem.next x (mem.next head)) x ne ∙ update_self mem.next x (mem.next head)

  added_elsewhere : (q : ℕ) → head ≢ q → x ≢ q → added.next q ≡ mem.next q
  added_elsewhere q nh nx =
      update_ne (update mem.next x (mem.next head)) x nh ∙ update_ne mem.next (mem.next head) nx

  add_empty : mem.next head ≡ head → head ≢ x → robust_op_add mem head x ≡ added
  unfolding robust_op_add
  add_empty e ne =
      let at_head : (mem.next head == head) ≡ true = ground (arith, e) in rw (at_head) refl

  add_before : mem.next head ≢ head → robust_op_add mem head x ≡ set_prev added (mem.next head) x
  unfolding robust_op_add
  add_before ne = rw (==_ne (mem.next head) head ne) refl

  -- Adding a mutex that is not held puts it in front.
  pub add-Linked :
      (xs : List ℕ)
      → NotIn x (head ∷ xs)
      → AllDiffer (head ∷ xs)
      → Linked mem head head xs
      → Linked (robust_op_add mem head x) head head (x ∷ xs)
  add-Linked [] (nx, _) d l =
      let ne : head ≢ x = (λ e. nx (sym e)) in
      subst (λ m. Linked m head head (x ∷ [])) (sym (add_empty l ne))
        (
          update_self (update mem.next x (mem.next head)) head x,
          update_self mem.prev x head,
          added_at_x ne ∙ l,
        )
  add-Linked (y ∷ ys) (nx, (nxy, nxs)) ((nhy, nhs), (nys, dys)) (ln, lp, l) =
      let ne : head ≢ x = (λ e. nx (sym e)) in
      let before : mem.next head ≢ head = (λ e. nhy (sym e ∙ ln)) in
      let old = mem.next head in
      let after = set_prev added old x in
      let y_not_x : old ≢ x = (λ e. nxy (sym e ∙ ln)) in
      subst (λ m. Linked m head head (x ∷ y ∷ ys)) (sym (add_before before))
        (
          update_self (update mem.next x old) head x,
          update_ne (update mem.prev x head) x y_not_x ∙ update_self mem.prev x head,
          (
            added_at_x ne ∙ ln,
            ap (update (update mem.prev x head) old x) (sym ln)
                ∙ update_self (update mem.prev x head) old x,
            kept-Linked mem after head y ys head x old x added_elsewhere
                (λ q no nq. update_ne (update mem.prev x head) x no ∙ update_ne mem.prev head nq)
                (nhy, nhs) (nxy, nxs) (subst (λ o. NotIn o ys) (sym ln) nys) nxs l,
          ),
        )

pub robust_op_add-IsRobust :
    (mem : Memory) (head x : ℕ) (xs : List ℕ)
    → IsRobust mem head xs
    → NotIn x (head ∷ xs)
    → IsRobust (robust_op_add mem head x) head (x ∷ xs)
robust_op_add-IsRobust mem head x xs r (nx, nxs) = record {
  linked = add-Linked mem head x xs (nx, nxs) r.differ r.linked;
  differ = ((λ e. nx (sym e), r.differ.0), (nxs, r.differ.1));
}

-- Removing `x`
module _ (mem : Memory) (head x : ℕ) where
  -- Its predecessor is `p` or comes after it,
  prev_in :
      (p q : ℕ) (pre ys : List ℕ)
      → Linked mem head p (pre ++ (x ∷ ys))
      → NotIn q (p ∷ pre ++ (x ∷ ys))
      → q ≢ mem.prev x
  prev_in p q [] ys (ln, lp, l) (nqp, n) = λ e. nqp (e ∙ lp)
  prev_in p q (a ∷ pre) ys (ln, lp, l) (nqp, n) = prev_in a q pre ys l n

  -- and its successor is the head or comes after it.
  next_in :
      (p q : ℕ) (pre ys : List ℕ)
      → Linked mem head p (pre ++ (x ∷ ys))
      → NotIn q (pre ++ (x ∷ ys))
      → q ≢ head
      → q ≢ mem.next x
  next_in p q [] [] (ln, lp, l) n nh = λ e. nh (e ∙ l)
  next_in p q [] (y ∷ ys) (ln, lp, (yn, yp, l)) (nqx, (nqy, n)) nh = λ e. nqy (e ∙ yn)
  next_in p q (a ∷ pre) ys (ln, lp, l) (nqa, n) nh = next_in a q pre ys l n nh

  -- `mem'` is `mem` with the two neighbours of `x` linked to each other.
  module _ (mem' : Memory) (joins : mem'.next (mem.prev x) ≡ mem.next x)
      (back : mem.next x ≢ head → mem'.prev (mem.next x) ≡ mem.prev x)
      (hn : (q : ℕ) → mem.prev x ≢ q → mem'.next q ≡ mem.next q)
      (hp : (q : ℕ) → mem.next x ≢ q → mem'.prev q ≡ mem.prev q) where
    removed-Linked :
        (p : ℕ) (pre ys : List ℕ)
        → Linked mem head p (pre ++ (x ∷ ys))
        → AllDiffer (p ∷ pre ++ (x ∷ ys))
        → NotIn head (pre ++ (x ∷ ys))
        → Linked mem' head p (pre ++ ys)
    removed-Linked p [] [] (ln, lp, l) d nh = ap mem'.next (sym lp) ∙ joins ∙ l
    removed-Linked p [] (y ∷ ys) (ln, lp, (yn, yp, l)) ((npx, (npy, np)), ((nxy, nxs), (nys, dys)))
          (nhx, (nhy, nhs)) =
        (
          ap mem'.next (sym lp) ∙ joins ∙ yn,
          ap mem'.prev (sym yn) ∙ back (λ e. nhy (sym e ∙ yn)) ∙ lp,
          kept-Linked mem mem' head y ys (mem.prev x) (mem.prev x) (mem.next x) (mem.next x)
              (λ q n _. hn q n) (λ q n _. hp q n) (subst (λ o. NotIn o (y ∷ ys)) (sym lp) (npy, np))
              (subst (λ o. NotIn o (y ∷ ys)) (sym lp) (npy, np))
              (subst (λ o. NotIn o ys) (sym yn) nys) (subst (λ o. NotIn o ys) (sym yn) nys) l,
        )
    removed-Linked p (a ∷ pre) ys (ln, lp, l) (np, (na, d)) (nha, nh) = (
      hn p (λ e. prev_in a p pre ys l np (sym e)) ∙ ln,
      hp a (λ e. next_in a a pre ys l na (λ h. nha (sym h)) (sym e)) ∙ lp,
      removed-Linked a pre ys l (na, d) nh,
    )

-- What is none of a list is none of it without `x`.
drop-NotIn : (q x : ℕ) (pre ys : List ℕ) → NotIn q (pre ++ (x ∷ ys)) → NotIn q (pre ++ ys)
drop-NotIn q x [] ys (_, n) = n
drop-NotIn q x (a ∷ pre) ys (na, n) = (na, drop-NotIn q x pre ys n)

drop-AllDiffer : (x : ℕ) (pre ys : List ℕ) → AllDiffer (pre ++ (x ∷ ys)) → AllDiffer (pre ++ ys)
drop-AllDiffer x [] ys (_, d) = d
drop-AllDiffer x (a ∷ pre) ys (n, d) = (drop-NotIn a x pre ys n, drop-AllDiffer x pre ys d)

robust_op_del-links :
    (mem : Memory) (head x : ℕ)
    → (let mem' = robust_op_del mem head x in
        (mem'.next ≡ update mem.next (mem.prev x) (mem.next x))
        × (((mem.next x ≡ head) × (mem'.prev ≡ mem.prev))
            ⊎ ((mem.next x ≢ head) × (mem'.prev ≡ update mem.prev (mem.next x) (mem.prev x)))))
unfolding robust_op_del
robust_op_del-links mem head x = elim (ℕ_discrete (mem.next x) head) [
  | yes e ↦
      let at_head : (mem.next x == head) ≡ true = ground (arith, e) in
      rw at_head (refl, inl (e, refl))
  | no ne ↦ rw (==_ne (mem.next x) head ne) (refl, inr (ne, refl))
]

pub robust_op_del-IsRobust :
    (mem : Memory) (head x : ℕ) (pre ys : List ℕ)
    → IsRobust mem head (pre ++ (x ∷ ys))
    → IsRobust (robust_op_del mem head x) head (pre ++ ys)
robust_op_del-IsRobust mem head x pre ys r =
    let mem' = robust_op_del mem head x in
    let (en, ep) = robust_op_del-links mem head x in
    record {
      linked =
          removed-Linked mem head x mem'
            (ap (λ (f : ℕ → ℕ). f (mem.prev x)) en ∙ update_self mem.next (mem.prev x) (mem.next x))
            (λ ne. elim ep [
              | inl (e, _) ↦ absurd (ne e)
              | inr (_, e) ↦
                  ap (λ (f : ℕ → ℕ). f (mem.next x)) e
                  ∙ update_self mem.prev (mem.next x) (mem.prev x)
            ])
            (λ q ne. ap (λ (f : ℕ → ℕ). f q) en ∙ update_ne mem.next (mem.next x) ne)
            (λ q ne. elim ep [
              | inl (_, e) ↦ ap (λ (f : ℕ → ℕ). f q) e
              | inr (_, e) ↦ ap (λ (f : ℕ → ℕ). f q) e ∙ update_ne mem.prev (mem.prev x) ne
            ])
            head pre ys r.linked r.differ r.differ.0;
      differ = (drop-NotIn head x pre ys r.differ.0, drop-AllDiffer x pre ys r.differ.1);
    }

-- The kernel's walk finds what is linked.
walk-eq :
    (n : ℕ) (mem : Memory) (head p : ℕ) (xs : List ℕ)
    → Linked mem head p xs
    → NotIn head xs
    → length xs < n
    → walk n mem head (mem.next p) ≡ xs
unfolding walk
walk-eq zero mem head p xs l nh h = absurd (omega arith)
walk-eq (suc n) mem head p [] l nh h =
    let at_head : (mem.next p == head) ≡ true = ground (arith, l) in rw at_head refl
walk-eq (suc n) mem head p (x ∷ xs) (ln, lp, l) (nhx, nh) h =
    let ne : (mem.next p == head) ≡ false = ==_ne (mem.next p) head (λ e. nhx (sym e ∙ ln)) in
    rw (ne, ln) (ap (λ t. x ∷ t) (walk-eq n mem head x xs l nh (omega arith)))

pub IsRobust-walk :
    (n : ℕ) (mem : Memory) (head : ℕ) (xs : List ℕ)
    → IsRobust mem head xs
    → length xs < n
    → walk n mem head (mem.next head) ≡ xs
IsRobust-walk n mem head xs r h = walk-eq n mem head head xs r.linked r.differ.0 h
