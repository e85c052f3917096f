-- ===== src/Actuator/Journal.antt =====
-- The recovery journal: the entry types, `Journal`, `JournalEnvelope` and `encode_journal` of
-- crates/uperf-actuator/src/lib.rs.
use uperf_linux_rev.Base.Text.{Text, text_key}
use uperf_linux_rev.Base.Results.{◌>>=◌, ◌>>◌, guard}
use uperf_linux_rev.Base.{
  ℕ, Bool, true, false, ◌&&◌, Option, List, [], ◌∷◌, leb, Result, ok, ok_or, length,
}
use uperf_linux_rev.Core.Units.{FrequencyLimits}
use uperf_linux_rev.Actuator.Values.{
  ProcessIdentity, ProcessSchedulingState, SystemdUnitProperties, SystemdUnitInstanceIdentity,
  ScalarValue, ScalarDomain,
}
use uperf_linux_rev.Actuator.Errors.{ActuatorError, invalid_journal}
use uperf_linux_rev.Actuator.Target.{FrequencyTarget}

pub record RecoveryFrequencyTargetManifest : Type 0 where
  pub id : Text
  pub min_path : Text
  pub max_path : Text
  pub hardware_min : ℕ
  pub hardware_max : ℕ
  pub opps : List ℕ
  pub hertz_per_unit : ℕ

pub record RecoveryScalarTargetManifest : Type 0 where
  pub id : Text
  pub path : Text
  pub domain : ScalarDomain

pub data RecoveryResourceManifest : Type 0 where
  frequency_pair : RecoveryFrequencyTargetManifest → RecoveryResourceManifest
  scalar : RecoveryScalarTargetManifest → RecoveryResourceManifest

-- `FrequencyTarget::recovery_manifest`.
abbrev pub recovery_manifest : FrequencyTarget → RecoveryFrequencyTargetManifest
recovery_manifest t = record {
  id = t.id;
  min_path = t.min_path;
  max_path = t.max_path;
  hardware_min = t.hardware_min;
  hardware_max = t.hardware_max;
  opps = t.opps;
  hertz_per_unit = t.hertz_per_unit;
}

pub record JournalEntry : Type 0 where
  pub target : Text
  pub min_path : Text
  pub max_path : Text
  pub resource_manifest : RecoveryResourceManifest
  pub original : FrequencyLimits
  pub desired : FrequencyLimits
  pub applied : FrequencyLimits
  pub legal_pairs : List FrequencyLimits

pub record ScalarJournalEntry : Type 0 where
  pub target : Text
  pub path : Text
  pub manifest : RecoveryResourceManifest
  pub original : ScalarValue
  pub desired : ScalarValue
  pub applied : ScalarValue

pub record TaskFieldMask : Type 0 where
  pub affinity : Bool
  pub nice : Bool
  pub policy : Bool
  pub uclamp_min : Bool
  pub uclamp_max : Bool

pub record UnitFieldMask : Type 0 where
  pub cpu_weight : Bool
  pub allowed_cpus : Bool

pub record TaskJournalEntry : Type 0 where
  pub identity : ProcessIdentity
  pub original : ProcessSchedulingState
  pub desired : ProcessSchedulingState
  pub applied : ProcessSchedulingState
  pub owned_fields : TaskFieldMask
  pub relinquished_fields : TaskFieldMask

pub record UnitJournalEntry : Type 0 where
  pub unit : Text
  pub instance_identity : SystemdUnitInstanceIdentity
  pub original : SystemdUnitProperties
  pub desired : SystemdUnitProperties
  pub applied : SystemdUnitProperties
  pub owned_fields : UnitFieldMask
  pub relinquished_fields : UnitFieldMask

pub record Journal : Type 0 where
  pub schema_version : ℕ
  pub boot_id : Text
  pub device_fingerprint : Text
  pub generation : ℕ
  pub entries : List (Text × JournalEntry)
  pub scalars : List (Text × ScalarJournalEntry)
  pub tasks : List (Text × TaskJournalEntry)
  pub units : List (Text × UnitJournalEntry)

abbrev pub journal_schema_version : ℕ
journal_schema_version = 6

abbrev pub max_journal_payload_bytes : ℕ
max_journal_payload_bytes = 1048576

abbrev pub max_journal_envelope_bytes : ℕ
max_journal_envelope_bytes = 5242880

abbrev pub no_items {ℓ} : {A : Type ℓ} → List A → Bool
no_items [] = true
no_items (x ∷ xs) = false

-- `Journal::is_empty`.
abbrev pub is_empty : Journal → Bool
is_empty j = no_items j.entries && no_items j.scalars && no_items j.tasks && no_items j.units

-- A journal with no entry.
abbrev pub blank : Text → Text → ℕ → Journal
blank boot_id device_fingerprint generation = record {
  schema_version = journal_schema_version;
  boot_id = boot_id;
  device_fingerprint = device_fingerprint;
  generation = generation;
  entries = [];
  scalars = [];
  tasks = [];
  units = [];
}

pub record JournalEnvelope : Type 0 where
  pub payload : List ℕ
  pub checksum : ℕ

-- What `encode_journal` takes from serde_json, whose serializer may fail, and the checksum.
pub record Codec : Type 0 where
  pub journal_to_vec : Journal → Option (List ℕ)
  pub envelope_to_vec : JournalEnvelope → Option (List ℕ)
  pub crc32 : List ℕ → ℕ

unfoldable pub encode_journal : Codec → Journal → Result ActuatorError (List ℕ)
encode_journal codec journal = do
  payload ← ok_or (codec.journal_to_vec journal) invalid_journal
  guard (leb (length payload) max_journal_payload_bytes) invalid_journal
  encoded ←
      ok_or (codec.envelope_to_vec (record { payload = payload; checksum = codec.crc32 payload }))
        invalid_journal
  guard (leb (length encoded) max_journal_envelope_bytes) invalid_journal
  ok encoded
