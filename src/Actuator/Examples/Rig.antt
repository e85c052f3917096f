-- ===== src/Actuator/Examples/Rig.antt =====
-- A small machine to run the actuator on: files, a disk and a clock.
use uperf_linux_rev.Actuator.Errors.{rollback_failed}
use uperf_linux_rev.Base.Text.{same_text_iff}
use uperf_linux_rev.Base.Text.{same_text}
use uperf_linux_rev.Base.Text.{Text, text, text_key}
use uperf_linux_rev.Base.Maps.{get, insert}
use uperf_linux_rev.Base.{
  ℕ, ◌+◌, ◌≡◌, refl, sym, ap, ◌∙◌, ◌≢◌, false, Option, none, some, List, [], ◌∷◌, arith, some_or,
  Result, ok, if-cases,
}
use uperf_linux_rev.Actuator.Batch.{FrequencyRequest, TargetRegistry}
use uperf_linux_rev.Actuator.Batch.Durable.{IsCovered-empty}
use uperf_linux_rev.Actuator.Batch.Entries.{IsRegistry}
use uperf_linux_rev.Actuator.Batch.Safety.{IsSound}
use uperf_linux_rev.Actuator.Errors.{PlatformError}
use uperf_linux_rev.Actuator.Io.Timeout.{IsClock}
use uperf_linux_rev.Actuator.Journal.{JournalEntry, blank}
use uperf_linux_rev.Actuator.Machine.{Machine, Platform, read_only_degraded, read_write}
use uperf_linux_rev.Actuator.Target.{FrequencyTarget}
use uperf_linux_rev.Core.Units.{FrequencyLimits}

pub record Rig : Type 0 where
  pub files : List (Text × Text)
  pub time : ℕ

abbrev pub answer : Option Text → Result PlatformError Text
answer o = ok (some_or o [])

abbrev pub rig_platform : Platform Rig
rig_platform = record {
  codec = record {
    journal_to_vec = λ j. some (j.generation ∷ []);
    envelope_to_vec = λ e. some e.payload;
    crc32 = λ bytes. 0;
  };
  read_string = λ path w. (answer (get path w.files), w);
  write_string = λ path value w. (ok tt, record w { files = insert path value w.files });
  store_durable = λ bytes w. (ok tt, w);
  remove_durable = λ w. (ok tt, w);
  now = λ w. (w.time, w);
  sleep = λ ns w. record w { time = w.time + ns };
}

abbrev pub low_path : Text
low_path = text "/sys/a"

abbrev pub high_path : Text
high_path = text "/sys/b"

abbrev pub cpu : FrequencyTarget
cpu = record {
  id = text "c";
  min_path = low_path;
  max_path = high_path;
  hardware_min = 2;
  hardware_max = 8;
  opps = 2 ∷ 4 ∷ 8 ∷ [];
  hertz_per_unit = 1;
}

abbrev pub full_range : FrequencyLimits
full_range = record { min = 2; max = 8 }

abbrev pub half_range : FrequencyLimits
half_range = record { min = 2; max = 4 }

abbrev pub one_cpu : TargetRegistry
one_cpu = (text "c", cpu) ∷ []

abbrev pub slow_down : List FrequencyRequest
slow_down = record { target = text "c"; limits = half_range } ∷ []

abbrev pub fresh : Machine Rig
fresh = record {
  state = record {
    mode = read_write;
    journal = blank (text "boot") (text "device") 0;
    recovery_required = false;
  };
  world = record { files = (low_path, text "2") ∷ (high_path, text "8") ∷ []; time = 0 };
  trace = [];
}

abbrev pub stopped : Machine Rig
stopped = record fresh { state = record fresh.state { mode = read_only_degraded rollback_failed } }

pub one_cpu-IsRegistry : IsRegistry one_cpu
unfolding get
one_cpu-IsRegistry id t h =
    if-cases (λ o. o ≡ some t → t.id ≡ id) (same_text (text "c") id) (some cpu) none
      (λ same e. sym (ap (λ o. (some_or o cpu).id) e) ∙ (same_text_iff (text "c") id).0 same)
      (λ other e. absurd (none-ne-some t e)) h
  where
    none-ne-some : (t : FrequencyTarget) → none ≢ some t
    none-ne-some t e = cc

pub fresh-IsSound : IsSound one_cpu fresh
unfolding get
fresh-IsSound = record {
  entries = λ id t e listed found. absurd (none-ne-entry e found);
  covered = IsCovered-empty;
}
  where
    none-ne-entry : (e : JournalEntry) → none ≢ some e
    none-ne-entry e h = cc

pub rig-IsClock : IsClock rig_platform (λ w. w.time)
rig-IsClock = record {
  shows = λ w. refl;
  now_keeps = λ w. omega arith;
  read_keeps = λ path w. omega arith;
  sleeps = λ ns w. omega arith;
}
