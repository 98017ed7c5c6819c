-- ===== src/Calling/Leases/Binding.antt =====
-- What the binding script does to the leases of a trunk.
use monogo.Base.{
  ℕ, ◌≡◌, refl, sym, ap, ◌∙◌, ◌⊎◌, inl, inr, true, false, none, some, Text, text_eq, text_eq_refl,
  eq_of_text_eq, if◌then◌else◌, Bool-cases, Option-cases,
}
use mathlib.Core.Bool.{true≢false}
use monogo.Redis.{Redis, RedisLaws}
use monogo.Calling.Leases.{leases_key, bind_script}

false_sym : (a b : Text) → text_eq a b ≡ false → text_eq b a ≡ false
false_sym a b h = elim (Bool-cases (text_eq b a)) [
  | inl e ↦
      absurd
        (true≢false (sym (text_eq_refl a) ∙ ap (λ t. text_eq a t) (sym (eq_of_text_eq b a e)) ∙ h))
  | inr e ↦ e
]

-- The lease `lease_id`, which ends at `score`, now stands for the call.
pub record Moved (r : Redis) (leases lease_id call_id : Text) (score : ℕ)
    (before after : r.Keyspace) : Type 0 where
  pub lease_gone : r.zscore leases lease_id after ≡ none
  pub call_holds : r.zscore leases call_id after ≡ some score
  pub others_kept :
      (m : Text)
      → text_eq lease_id m ≡ false
      → text_eq call_id m ≡ false
      → r.zscore leases m after ≡ r.zscore leases m before
  pub same_number :
      r.zscore leases call_id before ≡ none → r.zcard leases after ≡ r.zcard leases before

module _ (r : Redis) (laws : RedisLaws r) (prefix : Text) where
  open r use {Keyspace, zadd, zrem, zscore, zcard}

  abbrev leases : Text
  leases = leases_key prefix

  module _ (lease_id call_id : Text) (score : ℕ) (db : Keyspace)
      (n : text_eq lease_id call_id ≡ false) where
    abbrev moved : Keyspace
    moved = zadd leases score call_id (zrem leases lease_id db)

    moved-zscore :
        (m : Text)
        → zscore leases m moved ≡ (
            if text_eq call_id m
            then some score
            else if text_eq lease_id m
            then none
            else zscore leases m db)
    moved-zscore m =
        laws.zscore-zadd leases m score call_id (zrem leases lease_id db)
        ∙ ap (λ t. if text_eq call_id m then some score else t)
            (laws.zscore-zrem leases m lease_id db)

    removed-call : zscore leases call_id (zrem leases lease_id db) ≡ zscore leases call_id db
    removed-call = laws.zscore-zrem leases call_id lease_id db ∙ rw n refl

    moved-zcard :
        zscore leases lease_id db ≡ some score
        → zscore leases call_id db ≡ none
        → zcard leases moved ≡ zcard leases db
    moved-zcard h e =
        laws.zcard-zadd_new leases call_id score _ (removed-call ∙ e)
        ∙ laws.zcard-zrem_old leases lease_id score db h

    moved-Moved :
        zscore leases lease_id db ≡ some score → Moved r leases lease_id call_id score db moved
    moved-Moved h = record {
      lease_gone =
          moved-zscore lease_id
          ∙ rw (false_sym lease_id call_id n) (rw (text_eq_refl lease_id) refl);
      call_holds = moved-zscore call_id ∙ rw (text_eq_refl call_id) refl;
      others_kept = λ m a b. moved-zscore m ∙ rw b (rw a refl);
      same_number = moved-zcard h;
    }

  -- By the laws of sorted sets, for a call whose id is not that of the lease: the script fails and
  -- changes nothing where the lease is gone; else it moves the lease, with the time at which it ends,
  -- to the call, and leaves every other lease and, where the call has none yet, their number alone.
  pub bind_script-Moved :
      (lease_id call_id : Text) (db : Keyspace)
      → text_eq lease_id call_id ≡ false
      → ((zscore leases lease_id db ≡ none)
          × (bind_script r prefix lease_id call_id db ≡ (false, db)))
        ⊎ ((score : ℕ) × (zscore leases lease_id db ≡ some score)
            × ((bind_script r prefix lease_id call_id db).0 ≡ true)
            × Moved r leases lease_id call_id score db (bind_script r prefix lease_id call_id db).1)
  unfolding bind_script
  bind_script-Moved lease_id call_id db n = elim (Option-cases (zscore leases lease_id db)) [
    | inl gone ↦ inl (gone, rw (gone, bind_script) refl)
    | inr (score, held) ↦ inr (
      score,
      held,
      rw (held, bind_script) refl,
      rw (held, bind_script) (moved-Moved lease_id call_id score db n held),
    )
  ]
