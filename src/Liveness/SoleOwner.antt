-- ===== src/Liveness/SoleOwner.antt =====
-- The sole-owner claim of a route's sender.
use thoth_ipc.Base.{
  ==_self, ℕ, ◌^◌, ◌≡◌, ◌≢◌, ◌⊎◌, inl, inr, refl, sym, ap, ◌∙◌, Bool, true, false, not, ◌&&◌, ◌||◌,
  ◌==◌, leb, if◌then◌else◌,
}
use thoth_ipc.Liveness.{
  SlotOwner, Os, no_process, owner_claiming, is_process_alive, claim_sole_owner, release_sole_owner,
}

-- `os` sees the process `pid` running, with start token `tok`.
pub record IsRunning (os : Os) (pid tok : ℕ) : Type 0 where
  pub is_pid : no_process pid ≡ false
  pub exists : os.exists pid ≡ true
  pub no_zombie : os.is_zombie pid ≡ false
  pub token : os.start_token pid ≡ tok

pub running-alive :
    (os : Os) (pid tok : ℕ) → IsRunning os pid tok → is_process_alive os pid tok ≡ true
unfolding is_process_alive
running-alive os pid tok r = rw (r.is_pid, r.exists, r.no_zombie, r.token) (go (tok == 0))
  where
    go : (b : Bool) → (if b then true else if b then true else (tok == tok)) ≡ true
    go true = refl
    go false = ==_self tok

-- A claim that succeeds writes this process; one that fails writes nothing.
claim_cases :
    (os : Os) (o : SlotOwner)
    → (claim_sole_owner os o ≡ (false, o))
      ⊎ (claim_sole_owner os o
          ≡ (true, record o { start_tok = os.start_token os.self_pid; pid = os.self_pid }))
unfolding claim_sole_owner
claim_cases os o =
    go (o.pid == owner_claiming) (not (o.pid == 0) && is_process_alive os o.pid o.start_tok)
  where
    mine : Bool × SlotOwner
    mine = (true, record o { start_tok = os.start_token os.self_pid; pid = os.self_pid })

    kept : Bool × SlotOwner
    kept = (false, o)

    go :
        (a b : Bool)
        → ((if a then kept else if b then kept else mine) ≡ kept)
          ⊎ ((if a then kept else if b then kept else mine) ≡ mine)
    go true b = inl refl
    go false true = inl refl
    go false false = inr refl

or_left : (a b : Bool) → (a || b) ≡ false → a ≡ false
or_left true b h = h
or_left false b h = refl

false_is_not_true : false ≢ true
false_is_not_true h = cc

-- No process takes the record from a holder that it sees running.
held_fails :
    (os : Os) (o : SlotOwner) → IsRunning os o.pid o.start_tok → claim_sole_owner os o ≡ (false, o)
unfolding claim_sole_owner
held_fails os o r =
    rw (running-alive os o.pid o.start_tok r, or_left (o.pid == 0) (leb (2 ^ 31) o.pid) r.is_pid)
      (go (o.pid == owner_claiming))
  where
    kept : Bool × SlotOwner
    kept = (false, o)

    go : (a : Bool) → (if a then kept else kept) ≡ kept
    go true = refl
    go false = refl

-- A process that claims the record and goes on running keeps it: no claim of a process that sees it
-- running with the start token it recorded succeeds, and such a claim writes nothing.
pub claim_sole_owner-Excludes :
    (os os' : Os) (o : SlotOwner)
    → (claim_sole_owner os o).0 ≡ true
    → IsRunning os' os.self_pid (os.start_token os.self_pid)
    → claim_sole_owner os' (claim_sole_owner os o).1 ≡ (false, (claim_sole_owner os o).1)
claim_sole_owner-Excludes os os' o won r = elim (claim_cases os o) [
  | inl e ↦ absurd (false_is_not_true (sym (ap (λ (x : Bool × SlotOwner). x.0) e) ∙ won))
  | inr e ↦
      rw e
        (held_fails os' (record o { start_tok = os.start_token os.self_pid; pid = os.self_pid }) r)
]

-- Once its holder has released the record, any process can claim it.
pub claim-release :
    (os os' : Os) (o : SlotOwner)
    → o.pid ≡ os.self_pid
    → (claim_sole_owner os' (release_sole_owner os o)).0 ≡ true
unfolding claim_sole_owner release_sole_owner
claim-release os os' o e = rw (ap (λ (n : ℕ). n == os.self_pid) e ∙ ==_self os.self_pid) refl
