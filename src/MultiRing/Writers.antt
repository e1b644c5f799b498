-- ===== src/MultiRing/Writers.antt =====
-- A writer's move of the commit index and its write keep the invariant.
use thoth_ipc.Base.{
  ℕ, ◌+◌, ◌^◌, ◌%◌, ◌≡◌, ◌≢◌, refl, sym, ap, subst, ◌∙◌, arith, inl, inr, some, add32, update,
  update_ne, update_self, ℕ_discrete,
}
use thoth_ipc.MultiRing.{ChannelRing, advance_multi}
use thoth_ipc.MultiRing.Run.{Writer, Sys, Fits, Stored, Inv, position}
use thoth_ipc.MultiRing.Claim.{alone_update, held_update}

module _ (i since : ℕ) (s : Sys) (v : Inv i since s) (k : ℕ) where
  -- The writer keeps its position, so it stays with it alone,
  pub same_alone :
      (old new : Writer)
      → s.writers k ≡ old
      → position new ≡ position old
      → (a b ct : ℕ) → position (update s.writers k new a) ≡ some ct
      → position (update s.writers k new b) ≡ some ct
      → a ≡ b
  same_alone old new e same =
      alone_update s.writers k new
        (λ l ct ne h g. ne (v.alone k l ct (ap position e ∙ sym same ∙ h) g)) v.alone

  -- and so do those of the others.
  pub same_held :
      (old new : Writer) (l ct : ℕ)
      → s.writers k ≡ old
      → position new ≡ position old
      → position (s.writers l) ≡ some ct
      → position (update s.writers k new l) ≡ some ct
  same_held old new l ct e same =
      held_update s.writers k new l ct (λ h. same ∙ sym (ap position e) ∙ h)

  -- no other writer is at the position of `k`.
  pub other_position :
      (l ct : ℕ) → k ≢ l → position (s.writers k) ≡ some ct → position (s.writers l) ≡ some ct → ⊥
  other_position l ct ne h g = ne (v.alone k l ct h g)

  module _ (ct : ℕ) (e : s.writers k ≡ Writer.won ct) where
    claimed : Fits i since s.ring s.sent s.read_cursor (Writer.won ct)
    claimed = subst (Fits i since s.ring s.sent s.read_cursor) e (v.fits k)

    abbrev advanced_ring : ChannelRing
    advanced_ring = record s.ring { write_cursor = add32 ct 1 }

    moved : advanced_ring.write_cursor ≡ s.ring.write_cursor + 1
    moved = let (same, near, early, small, m) = claimed in omega (arith, same, small)

    advanced-Fits :
        (l : ℕ) (w : Writer)
        → k ≢ l
        → s.writers l ≡ w
        → Fits i since s.ring s.sent s.read_cursor w
        → Fits i since advanced_ring s.sent s.read_cursor w
    advanced-Fits l Writer.idle ne h f = tt
    advanced-Fits l (Writer.won c) ne h (same, near, early, small, m) =
        absurd
          (other_position l ct ne (ap position e) (ap position h ∙ ap some (same ∙ sym claimed.0)))
    advanced-Fits l (Writer.owns c) ne h (le, low, un) = (le, omega (arith, low, moved), un)
    advanced-Fits l (Writer.wrote c) ne h (le, low, un, d) = (le, omega (arith, low, moved), un, d)

    advanced-Stored :
        (c : ℕ)
        → Stored s.ring s.sent s.writers c
        → Stored advanced_ring s.sent (update s.writers k (Writer.owns ct)) c
    advanced-Stored c (inl st) = inl st
    advanced-Stored c (inr (l, at)) =
        inr (l, same_held (Writer.won ct) (Writer.owns ct) l c e refl at)

    at_cursor :
        (c : ℕ) → c ≡ ct → Stored advanced_ring s.sent (update s.writers k (Writer.owns ct)) c
    at_cursor c h =
        inr (k, ap position (update_self s.writers k (Writer.owns ct)) ∙ ap some (sym h))

    pub advance-Inv :
        Inv i since (record s {
          ring = advance_multi s.ring ct;
          writers = update s.writers k (Writer.owns ct);
        })
    unfolding advance_multi
    advance-Inv =
        let (same, near, early, small, m) = claimed in
        record {
          ring_ok = record {
            connections_lt = v.ring_ok.connections_lt;
            epoch_lt = v.ring_ok.epoch_lt;
            epoch_high = v.ring_ok.epoch_high;
            size = v.ring_ok.size;
            rc_lt = v.ring_ok.rc_lt;
          };
          reader = record {
            connected = v.reader.connected;
            owners = v.reader.owners;
            table = v.reader.table;
            started = v.reader.started;
          };
          early = omega (arith, same, small);
          fresh = omega (arith, same, early);
          cursor_eq = v.cursor_eq;
          behind = omega (arith, v.behind, moved);
          lap = omega (arith, same, near);
          log = v.log;
          past = λ idx pos h f. omega (arith, moved, v.past idx pos h f);
          marked = λ c lo up. elim (ℕ_discrete c ct) [
            | yes h ↦ rw h (record { marked = m.marked; current = m.current })
            | no ne ↦
                let old = v.marked c lo (omega (arith, up, moved, same, ne)) in
                record { marked = old.marked; current = old.current }
          ];
          stored = λ c lo up. elim (ℕ_discrete c ct) [
            | yes h ↦ at_cursor c h
            | no ne ↦ advanced-Stored c (v.stored c lo (omega (arith, up, moved, same, ne)))
          ];
          fits = λ l. elim (ℕ_discrete k l) [
            | yes h ↦
                subst (Fits i since advanced_ring s.sent s.read_cursor)
                  (sym (update_self s.writers k (Writer.owns ct))
                    ∙ ap (update s.writers k (Writer.owns ct)) h)
                  (
                    omega (arith, same, v.behind),
                    omega (arith, same, moved),
                    λ f. omega (arith, same, v.past (ct % 2 ^ 8) ct (omega (arith, small)) f),
                  )
            | no ne ↦
                subst (Fits i since advanced_ring s.sent s.read_cursor)
                  (sym (update_ne s.writers (Writer.owns ct) ne))
                  (advanced-Fits l (s.writers l) ne refl (v.fits l))
          ];
          alone = same_alone (Writer.won ct) (Writer.owns ct) e refl;
        }
