-- ===== src/ServiceRegistry/Register.antt =====
-- Registration as a whole.
use thoth_ipc.Base.{
  ℕ, ◌+◌, ◌<◌, ◌≡◌, ◌≢◌, ◌⊎◌, inl, inr, refl, sym, ap, ◌∙◌, arith, Bool, true, false, Option-cases,
  some, none, List, ==_ne, length, if◌then◌else◌, ltb,
}
use thoth_ipc.ServiceRegistry.{
  ServiceEntry, RegistryData, Host, max_services, fill_entry, is_alive, is_pid, reuse_named,
  fill_free, register_service_as, find,
}
use thoth_ipc.ServiceRegistry.Names.{IsName, fill_entry-is_named}
use thoth_ipc.ServiceRegistry.Lookup.{reuse-finds, fill-finds, fill_true, reuse_same}

false_is_not_true : false ≢ true
false_is_not_true h = cc

module _ (host : Host) (reg : RegistryData) (name ctrl reply : List ℕ) (pid : ℕ) where
  -- Which of the two loops decided.
  registered :
      0 < length name
      → ((b : Bool) × (es : List ServiceEntry) × (reuse_named host name
              (fill_entry host name ctrl reply pid)
              reg.entries
            ≡ some (b, es))
          × (register_service_as host reg name ctrl reply pid ≡ (b, record reg { entries = es })))
        ⊎ (((b : Bool) × (es : List ServiceEntry) × (reuse_named host name
                  (fill_entry host name ctrl reply pid)
                  reg.entries
                ≡ none)
              × (fill_free host (fill_entry host name ctrl reply pid) reg.entries ≡ some (b, es))
              × (register_service_as host reg name ctrl reply pid ≡ (
                b,
                record {
                  count = if ltb reg.count max_services then reg.count + 1 else reg.count;
                  entries = es;
                },
              )))
            ⊎ (register_service_as host reg name ctrl reply pid ≡ (false, reg)))
  unfolding register_service_as
  registered h =
      let named = ==_ne (length name) 0 (λ e. omega (arith, h, e)) in
      elim (Option-cases
        (reuse_named host name (fill_entry host name ctrl reply pid) reg.entries)) [
          | inr ((b, es), e) ↦ inl (b, es, e, rw (named, e) refl)
          | inl none_named ↦
              elim (Option-cases
                (fill_free host (fill_entry host name ctrl reply pid) reg.entries)) [
                  | inr ((b, es), e) ↦
                      inr (inl (b, es, none_named, e, rw (named, none_named, e) refl))
                  | inl full ↦ inr (inr (rw (named, none_named, full) refl))
                ]
        ]

  fresh_alive :
      is_pid pid ≡ true
      → host.is_pid_alive pid ≡ true
      → is_alive host (fill_entry host name ctrl reply pid) ≡ true
  unfolding is_alive fill_entry
  fresh_alive hp ha = rw (hp, ha) refl

  -- A process that runs and registers a name that fits a field is found under that name: `find`
  -- answers the entry that was filled in for it.
  pub find-register :
      IsName name
      → is_pid pid ≡ true
      → host.is_pid_alive pid ≡ true
      → (register_service_as host reg name ctrl reply pid).0 ≡ true
      → (find host (register_service_as host reg name ctrl reply pid).1 name).0
        ≡ some (fill_entry host name ctrl reply pid)
  unfolding find
  find-register n hp ha won =
      let fresh = fill_entry host name ctrl reply pid in
      let named = fill_entry-is_named host name ctrl reply pid n hp in
      let alive = fresh_alive hp ha in
      elim (registered n.nonempty) [
        | inl (b, es, reused, e) ↦
            let yes_b : b ≡ true = sym (ap (λ (x : Bool × RegistryData). x.0) e) ∙ won in
            rw e (reuse-finds host name fresh named alive reg.entries es (rw (sym yes_b) reused))
        | inr (inl (b, es, none_named, filled, e)) ↦
            rw e (fill-finds host name fresh named alive reg.entries es b none_named filled)
        | inr (inr e) ↦
            absurd (false_is_not_true (sym (ap (λ (x : Bool × RegistryData). x.0) e) ∙ won))
      ]

  -- A registration, by a process that runs, of a name that fits a field changes nothing where it
  -- fails.
  pub register-fails :
      IsName name
      → is_pid pid ≡ true
      → host.is_pid_alive pid ≡ true
      → (register_service_as host reg name ctrl reply pid).0 ≡ false
      → (register_service_as host reg name ctrl reply pid).1 ≡ reg
  register-fails n hp ha lost =
      let fresh = fill_entry host name ctrl reply pid in
      let named = fill_entry-is_named host name ctrl reply pid n hp in
      let alive = fresh_alive hp ha in
      elim (registered n.nonempty) [
        | inl (b, es, reused, e) ↦
            let no_b : b ≡ false = sym (ap (λ (x : Bool × RegistryData). x.0) e) ∙ lost in
            let same =
              reuse_same host name fresh named alive reg.entries es (rw (sym no_b) reused) in
            rw (e, same) refl
        | inr (inl (b, es, none_named, filled, e)) ↦
            let b_true = fill_true host name fresh named alive reg.entries es b filled in
            absurd (false_is_not_true (sym lost ∙ ap (λ (x : Bool × RegistryData). x.0) e ∙ b_true))
        | inr (inr e) ↦ rw e refl
      ]
