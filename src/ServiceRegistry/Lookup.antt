-- ===== src/ServiceRegistry/Lookup.antt =====
-- What `find` answers after a registration.
use thoth_ipc.Base.{
  ℕ, ◌≡◌, ◌⊎◌, inl, inr, refl, sym, ap, ◌∙◌, Bool, true, false, not, ◌||◌, Bool-cases, Option, some,
  none, List, [], ◌∷◌, if◌then◌else◌,
}
use thoth_ipc.ServiceRegistry.{
  ServiceEntry, Host, is_named, is_active, is_alive, cons_result, reuse_named, fill_free, find_in,
}

-- `find` skips an entry of another name, and takes a live one of the name.
find_skip :
    (host : Host) (name : List ℕ) (e : ServiceEntry) (es : List ServiceEntry)
    → is_named name e ≡ false
    → (find_in host name (e ∷ es)).0 ≡ (find_in host name es).0
unfolding find_in
find_skip host name e es h = rw h refl

find_hit :
    (host : Host) (name : List ℕ) (e : ServiceEntry) (es : List ServiceEntry)
    → is_named name e ≡ true
    → is_alive host e ≡ true
    → (find_in host name (e ∷ es)).0 ≡ some e
unfolding find_in
find_hit host name e es h ha = rw (h, ha) refl

cons_some :
    (e : ServiceEntry) (o : Option (Bool × List ServiceEntry)) (b : Bool) (es : List ServiceEntry)
    → cons_result e o ≡ some (b, es)
    → (rest : List ServiceEntry) × (o ≡ some (b, rest)) × (es ≡ e ∷ rest)
cons_some e none b es h = cc
cons_some e (some (c, rest)) b es h = let same : c ≡ b = cc in (rest, rw same refl, cc)

cons_none :
    (e : ServiceEntry) (o : Option (Bool × List ServiceEntry)) → cons_result e o ≡ none → o ≡ none
cons_none e none h = refl
cons_none e (some (c, rest)) h = cc

module _ (host : Host) (name : List ℕ) (fresh : ServiceEntry) (named : is_named name fresh ≡ true)
    (alive : is_alive host fresh ≡ true) where
  reuse_head :
      (e : ServiceEntry) (es : List ServiceEntry)
      → is_named name e ≡ true
      → reuse_named host name fresh (e ∷ es)
        ≡ (if is_alive host e then some (false, e ∷ es) else some (true, fresh ∷ es))
  unfolding reuse_named
  reuse_head e es h = rw h refl

  reuse_tail :
      (e : ServiceEntry) (es : List ServiceEntry)
      → is_named name e ≡ false
      → reuse_named host name fresh (e ∷ es) ≡ cons_result e (reuse_named host name fresh es)
  unfolding reuse_named
  reuse_tail e es h = rw h refl

  reuse_live :
      (e : ServiceEntry) (es : List ServiceEntry)
      → is_named name e ≡ true
      → is_alive host e ≡ true
      → reuse_named host name fresh (e ∷ es) ≡ some (false, e ∷ es)
  unfolding reuse_named
  reuse_live e es h ha = rw (h, ha) refl

  reuse_dead :
      (e : ServiceEntry) (es : List ServiceEntry)
      → is_named name e ≡ true
      → is_alive host e ≡ false
      → reuse_named host name fresh (e ∷ es) ≡ some (true, fresh ∷ es)
  unfolding reuse_named
  reuse_dead e es h ha = rw (h, ha) refl

  -- An entry that was written over a stale one of its name is found.
  pub reuse-finds :
      (es es' : List ServiceEntry)
      → reuse_named host name fresh es ≡ some (true, es')
      → (find_in host name es').0 ≡ some fresh
  unfolding reuse_named
  reuse-finds [] es' h = cc
  reuse-finds (e ∷ es) es' h = elim (Bool-cases (is_named name e)) [
    | inl n ↦ elim (Bool-cases (is_alive host e)) [
      | inl a ↦ let live = reuse_live e es n a in cc
      | inr a ↦
          let dead = reuse_dead e es n a in
          let same : es' ≡ fresh ∷ es = cc in rw same (find_hit host name fresh es named alive)
    ]
    | inr n ↦
        let (rest, found, same) =
          cons_some e (reuse_named host name fresh es) true es' (sym (reuse_tail e es n) ∙ h) in
        rw same (find_skip host name e rest n ∙ reuse-finds es rest found)
  ]

  unnamed :
      (e : ServiceEntry) (es : List ServiceEntry)
      → reuse_named host name fresh (e ∷ es) ≡ none
      → (is_named name e ≡ false) × (reuse_named host name fresh es ≡ none)
  unnamed e es h = elim (Bool-cases (is_named name e)) [
    | inl n ↦ elim (Bool-cases (is_alive host e)) [
      | inl a ↦ let live = reuse_live e es n a in cc
      | inr a ↦ let dead = reuse_dead e es n a in cc
    ]
    | inr n ↦ (n, cons_none e (reuse_named host name fresh es) (sym (reuse_tail e es n) ∙ h))
  ]

  fill_take :
      (e : ServiceEntry) (es : List ServiceEntry)
      → (not (is_active e) || not (is_alive host e)) ≡ true
      → fill_free host fresh (e ∷ es) ≡ some (true, fresh ∷ es)
  unfolding fill_free
  fill_take e es h = rw h refl

  fill_pass :
      (e : ServiceEntry) (es : List ServiceEntry)
      → (not (is_active e) || not (is_alive host e)) ≡ false
      → fill_free host fresh (e ∷ es) ≡ cons_result e (fill_free host fresh es)
  unfolding fill_free
  fill_pass e es h = rw h refl

  fill_step :
      (e : ServiceEntry) (es es' : List ServiceEntry) (b : Bool)
      → fill_free host fresh (e ∷ es) ≡ some (b, es')
      → ((b ≡ true) × (es' ≡ fresh ∷ es))
        ⊎ ((rest : List ServiceEntry) × (fill_free host fresh es ≡ some (b, rest))
            × (es' ≡ e ∷ rest))
  fill_step e es es' b h = elim (Bool-cases (not (is_active e) || not (is_alive host e))) [
    | inl free ↦ let taken = fill_take e es free in inl (cc, cc)
    | inr used ↦ inr (cons_some e (fill_free host fresh es) b es' (sym (fill_pass e es used) ∙ h))
  ]

  -- An entry that was written to a free slot is found where no active entry had its name.
  pub fill-finds :
      (es es' : List ServiceEntry) (b : Bool)
      → reuse_named host name fresh es ≡ none
      → fill_free host fresh es ≡ some (b, es')
      → (find_in host name es').0 ≡ some fresh
  unfolding fill_free
  fill-finds [] es' b r h = cc
  fill-finds (e ∷ es) es' b r h =
      let (other, rest_none) = unnamed e es r in
      elim (fill_step e es es' b h) [
        | inl (won, same) ↦ rw same (find_hit host name fresh es named alive)
        | inr (rest, filled, same) ↦
            rw same (find_skip host name e rest other ∙ fill-finds es rest b rest_none filled)
      ]

  pub fill_true :
      (es es' : List ServiceEntry) (b : Bool) → fill_free host fresh es ≡ some (b, es') → b ≡ true
  unfolding fill_free
  fill_true [] es' b h = cc
  fill_true (e ∷ es) es' b h = elim (fill_step e es es' b h) [
    | inl (won, same) ↦ won
    | inr (rest, filled, same) ↦ fill_true es rest b filled
  ]

  -- The first loop leaves the table where a live service has the name.
  pub reuse_same :
      (es es' : List ServiceEntry) → reuse_named host name fresh es ≡ some (false, es') → es' ≡ es
  unfolding reuse_named
  reuse_same [] es' h = cc
  reuse_same (e ∷ es) es' h = elim (Bool-cases (is_named name e)) [
    | inl n ↦ elim (Bool-cases (is_alive host e)) [
      | inl a ↦ let live = reuse_live e es n a in cc
      | inr a ↦ let dead = reuse_dead e es n a in cc
    ]
    | inr n ↦
        let (rest, found, same) =
          cons_some e (reuse_named host name fresh es) false es' (sym (reuse_tail e es n) ∙ h) in
        same ∙ ap (λ xs. e ∷ xs) (reuse_same es rest found)
  ]
