-- ===== src/Route/Timeout.antt =====
-- A push whose wait has timed out comes to an end.
use thoth_ipc.Base.{ℕ, ◌≡◌, refl, List, [], ◌∷◌, some, true, false, Bool-cases, ◌⊎◌, inl, inr}
use thoth_ipc.Liveness.{SlotOwner}
use thoth_ipc.Route.{
  Ring, Claim, Waited, claim_slot, force_push, write_slot, publish, push_fragment,
}
use thoth_ipc.Route.Run.{IsRing}
use thoth_ipc.Route.Evict.{force_push-claims}

-- A push that can claim its slot writes and publishes it.
push_claimed :
    (waits : List Waited) (bytes : List ℕ) (ring owned : Ring)
    → claim_slot ring ≡ Claim.claimed owned
    → push_fragment waits bytes ring ≡ some (true, publish (write_slot bytes owned))
unfolding push_fragment
push_claimed [] bytes ring owned h = rw (h, push_fragment) refl
push_claimed (w ∷ waits) bytes ring owned h = rw (h, push_fragment) refl

-- A push whose wait times out on a slot that is still busy comes to an end, whatever waits would
-- follow: it answers whether `force_push` has left a receiver, and has then written its fragment.
pub push_fragment-Ends :
    (waits : List Waited) (bytes : List ℕ) (w : Waited) (ring : Ring) (owners : List SlotOwner)
    → claim_slot ring ≡ Claim.must_wait
    → w.ok ≡ false
    → IsRing w.after
    → w.after.liveness ≡ some owners
    → claim_slot w.after ≡ Claim.must_wait
    → (((force_push w.after).0 ≡ false)
        × (push_fragment (w ∷ waits) bytes ring ≡ some (false, (force_push w.after).1)))
      ⊎ (((force_push w.after).0 ≡ true)
          × ((owned : Ring) × (push_fragment (w ∷ waits) bytes ring
                ≡ some (true, publish (write_slot bytes owned)))))
unfolding push_fragment
push_fragment-Ends waits bytes w ring owners busy late ok table still =
    elim (Bool-cases (force_push w.after).0) [
      | inl left ↦
          let (owned, claimed) = force_push-claims w.after owners ok table still left in
          let sent : push_fragment (w ∷ waits) bytes ring
              ≡ some (true, publish (write_slot bytes owned)) =
            rw (busy, late, left, push_fragment)
              (push_claimed waits bytes (force_push w.after).1 owned claimed) in
          inr (left, (owned, sent))
      | inr gone ↦ inl (gone, rw (busy, late, gone, push_fragment) refl)
    ]
