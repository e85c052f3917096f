-- ===== src/Actuator/Batch/Works.antt =====
-- The write loop and the rollback of `apply_batch` in crates/uperf-actuator/src/lib.rs, between
-- the two stores of the journal.
use uperf_linux_rev.Actuator.Batch.{
  attempt, reached, with_entry, Action, Applied, Progress, FrequencyLimits, write_all,
  PreparedFrequencyMutation, FrequencyTarget, ActuatorError, TargetRegistry,
}
use uperf_linux_rev.Actuator.Machine.{
  get_state, set_journal, pure, ◌>>=◌, ◌>>◌, Platform, Machine, RuntimeState, read_string,
  write_string, read_clock, sleep,
}
use uperf_linux_rev.Base.Maps.{insert}
use uperf_linux_rev.Actuator.Batch.Entries.{
  reached-IsJournalFor, AreClaimed, IsListed, IsJournalFor,
}
use uperf_linux_rev.Actuator.Io.{apply_requested_limits}
use uperf_linux_rev.Actuator.Io.Frame.{apply_requested-Respects, Reaches, IsFrame}
use uperf_linux_rev.Base.Text.{text_key}
use uperf_linux_rev.Base.{
  ◌≡◌, refl, sym, ap, ◌∙◌, subst, some, List, [], ◌∷◌, Result, ok, err, All, elim-cases,
}
use uperf_linux_rev.Actuator.Journal.{Journal}
use uperf_linux_rev.Actuator.Machine.Rules.{
  IsPreorder, SameState, Emits, Emits-preorder, read_string-Emits, write_string-Emits,
  read_clock-Emits, sleep-Emits,
}
use uperf_linux_rev.Actuator.Batch.Durable.{ClaimsPath, ClaimedWrite}

-- What the writes keep, while the disk holds the journal `held`.
pub record Works {W : Type 0} (registry : TargetRegistry) (held : Journal) (m n : Machine W)
    : Type 0 where
  pub mode : n.state.mode ≡ m.state.mode
  pub required : n.state.recovery_required ≡ m.state.recovery_required
  pub journal : IsJournalFor registry m.state.journal → IsJournalFor registry n.state.journal
  pub writes : Emits (ClaimedWrite held) m n

module _ {W : Type 0} (registry : TargetRegistry) (held : Journal) where
  pub Works-preorder : IsPreorder (Works {W = W} registry held)
  Works-preorder =
      let emits = Emits-preorder {W = W} (ClaimedWrite held) in
      record {
        self =
            λ m. record { mode = refl; required = refl; journal = λ h. h; writes = emits.self m };
        chain = λ a b c h k. record {
          mode = k.mode ∙ h.mode;
          required = k.required ∙ h.required;
          journal = λ i. k.journal (h.journal i);
          writes = emits.chain a b c h.writes k.writes;
        };
      }

  Works-of :
      (m n : Machine W) → SameState m n → Emits (ClaimedWrite held) m n → Works registry held m n
  Works-of m n same emits = record {
    mode = ap (λ (s : RuntimeState). s.mode) same;
    required = ap (λ (s : RuntimeState). s.recovery_required) same;
    journal = λ h. subst (λ (s : RuntimeState). IsJournalFor registry s.journal) (sym same) h;
    writes = emits;
  }

  pub Works-frame : (os : Platform W) → IsFrame os (Works registry held) (ClaimsPath held)
  unfolding read_string write_string read_clock sleep
  Works-frame os =
      let P = ClaimedWrite held in
      record {
        order = Works-preorder;
        reading =
            λ path. record { at = λ m. Works-of m _ refl ((read_string-Emits os P path).at m) };
        writing = λ path value claim. record {
          at = λ m. Works-of m _ refl ((write_string-Emits os P path value claim).at m);
        };
        clock = record { at = λ m. Works-of m _ refl ((read_clock-Emits os P).at m) };
        napping = λ ns. record { at = λ m. Works-of m _ refl ((sleep-Emits os P ns).at m) };
      }

-- The write loop ends with the attempted mutations, whose files are all claimed.
pub data Wrote {W : Type 0} (registry : TargetRegistry) (held : Journal) (m : Machine W)
    : Result ActuatorError Progress × Machine W → Type 0 where
  wrote_all :
      (progress : Progress) (n : Machine W)
      → Works registry held m n
      → All (λ p. Reaches (ClaimsPath held) p.target) progress.attempted
      → Wrote registry held m (ok progress, n)

module _ {W : Type 0} (os : Platform W) (registry : TargetRegistry) (held : Journal) where
  Wrote-chain :
      (m n : Machine W) (out : Result ActuatorError Progress × Machine W)
      → Works registry held m n
      → Wrote registry held n out
      → Wrote registry held m out
  Wrote-chain m n _ h (wrote_all progress k w a) =
      wrote_all progress k ((Works-preorder registry held).chain m n k h w) a

  after_update :
      (t : FrequencyTarget) (actual : FrequencyLimits) (n : Machine W)
      → IsListed registry t
      → Works registry held n (record n {
        state = record n.state {
          journal = with_entry t.id (λ e. reached e actual) n.state.journal;
        };
      })
  after_update t actual n listed = record {
    mode = refl;
    required = refl;
    journal = reached-IsJournalFor registry t actual n.state.journal listed;
    writes = (Emits-preorder (ClaimedWrite held)).self n;
  }

  -- What the loop does with the outcome of one write.
  abbrev go_on :
      PreparedFrequencyMutation
      → List PreparedFrequencyMutation
      → Applied
      → List PreparedFrequencyMutation
      → Result ActuatorError FrequencyLimits
      → Action W Progress
  go_on p ps applied attempted r = elim r [
    | ok actual ↦ do
      s ← get_state
      set_journal (with_entry p.target.id (λ e. reached e actual) s.journal)
      write_all os ps (insert p.target.id actual applied) (p ∷ attempted)
    | err e ↦
        pure (record { applied = applied; attempted = p ∷ attempted; failure = some p.target.id })
  ]

  module _ (p : PreparedFrequencyMutation) (ps : List PreparedFrequencyMutation)
      (listed : IsListed registry p.target) (reach : Reaches (ClaimsPath held) p.target)
      (rest : (applied : Applied) (attempted : List PreparedFrequencyMutation) (n : Machine W)
        → All (λ q. Reaches (ClaimsPath held) q.target) attempted
        → Wrote registry held n (write_all os ps applied attempted n)) where
    go_on-Wrote :
        (applied : Applied) (attempted : List PreparedFrequencyMutation) (m n : Machine W)
        (r : Result ActuatorError FrequencyLimits)
        → All (λ q. Reaches (ClaimsPath held) q.target) attempted
        → Works registry held m n
        → Wrote registry held m (go_on p ps applied attempted r n)
    go_on-Wrote applied attempted m n (ok actual) done w =
        let order = Works-preorder registry held in
        Wrote-chain m _ _ (order.chain m n _ w (after_update p.target actual n listed))
          (rest (insert p.target.id actual applied) (p ∷ attempted) _ (reach, done))
    go_on-Wrote applied attempted m n (err e) done w = wrote_all _ n w (reach, done)

  pub write_all-Wrote :
      (ps : List PreparedFrequencyMutation) (applied : Applied)
      (attempted : List PreparedFrequencyMutation) (m : Machine W)
      → All (λ p. IsListed registry p.target) ps
      → AreClaimed held ps
      → All (λ p. Reaches (ClaimsPath held) p.target) attempted
      → Wrote registry held m (write_all os ps applied attempted m)
  unfolding write_all
  write_all-Wrote [] applied attempted m listed claims done =
      wrote_all _ m ((Works-preorder registry held).self m) done
  write_all-Wrote (p ∷ ps) applied attempted m listed claims done =
      let attempt_one = apply_requested_limits os p.target p.previous_request p.desired_request in
      elim-cases (λ (a : Action W Progress). Wrote registry held m (a m)) p.needs_write
        (attempt attempt_one >>= go_on p ps applied attempted)
        (write_all os ps (insert p.target.id p.before_effective applied) attempted)
        (λ wanted.
          go_on-Wrote p ps listed.0 (claims.0 wanted)
            (λ a b n d. write_all-Wrote ps a b n listed.1 claims.1 d) applied attempted m
            (attempt_one m).1 (attempt_one m).0 done
            ((apply_requested-Respects (Works-frame registry held os) p.target p.previous_request
                p.desired_request (claims.0 wanted)).at
              m))
        (λ idle.
          write_all-Wrote ps (insert p.target.id p.before_effective applied) attempted m listed.1
            claims.1 done)
