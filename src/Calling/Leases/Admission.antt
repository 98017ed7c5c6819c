-- ===== src/Calling/Leases/Admission.antt =====
-- What the scripts on call leases do to the leases of a trunk.
use monogo.Base.{
  ℕ, suc, ◌+◌, ◌≤◌, ◌≡◌, ◌≢◌, refl, ap, ◌∙◌, false, none, some, Text, text_eq, text_eq_refl, ◌==◌,
  ltb, leb, if◌then◌else◌, arith, Bool-cases, Option-cases, inl, inr, [], ◌∷◌,
}
use Prim.Native.Nat.{max}
use monogo.Redis.{Redis, RedisLaws, above}
use monogo.Calling.Leases.{
  Reply, granted, over_cps, over_concurrent, leases_key, cps_key, put_lease, count_attempt, admit,
  acquire_script,
}

abbrev tail_of : Text → Text
tail_of [] = []
tail_of (c ∷ cs) = cs

keys_differ : (prefix : Text) → cps_key prefix ≢ leases_key prefix
keys_differ [] h = cc
keys_differ (c ∷ prefix) h = keys_differ prefix (ap tail_of h)

module _ (r : Redis) (laws : RedisLaws r) (prefix : Text) where
  open r use {Keyspace, incr, pexpire, zadd, zrem, zscore, zcard, zremrangebyscore}

  abbrev leases : Text
  leases = leases_key prefix

  counted-zscore :
      (m : Text) (db : Keyspace)
      → zscore leases m (count_attempt r (cps_key prefix) db).1 ≡ zscore leases m db
  unfolding count_attempt
  counted-zscore m db = elim (Bool-cases ((incr (cps_key prefix) db).0 == 1)) [
    | inl e ↦ rw e (
        laws.zscore-pexpire leases m (cps_key prefix) 999 _
        ∙ laws.zscore-incr leases m _ db (keys_differ prefix))
    | inr e ↦ rw e (laws.zscore-incr leases m _ db (keys_differ prefix))
  ]

  counted-zcard :
      (db : Keyspace) → zcard leases (count_attempt r (cps_key prefix) db).1 ≡ zcard leases db
  unfolding count_attempt
  counted-zcard db = elim (Bool-cases ((incr (cps_key prefix) db).0 == 1)) [
    | inl e ↦ rw e (
        laws.zcard-pexpire leases (cps_key prefix) 999 _
        ∙ laws.zcard-incr leases _ db (keys_differ prefix))
    | inr e ↦ rw e (laws.zcard-incr leases _ db (keys_differ prefix))
  ]

  put-zscore :
      (m id : Text) (now ttl : ℕ) (db : Keyspace)
      → zscore leases m (put_lease r leases now (suc ttl) id db)
        ≡ (if text_eq id m then some (now + suc ttl) else zscore leases m db)
  unfolding put_lease
  put-zscore m id now ttl db =
      laws.zscore-pexpire leases m leases ttl _ ∙ laws.zscore-zadd leases m _ id db

  put-zcard_new :
      (id : Text) (now ttl : ℕ) (db : Keyspace)
      → zscore leases id db ≡ none
      → zcard leases (put_lease r leases now (suc ttl) id db) ≡ suc (zcard leases db)
  unfolding put_lease
  put-zcard_new id now ttl db h =
      laws.zcard-pexpire leases leases ttl _ ∙ laws.zcard-zadd_new leases id _ db h

  put-zcard_old :
      (id : Text) (now ttl old : ℕ) (db : Keyspace)
      → zscore leases id db ≡ some old
      → zcard leases (put_lease r leases now (suc ttl) id db) ≡ zcard leases db
  unfolding put_lease
  put-zcard_old id now ttl old db h =
      laws.zcard-pexpire leases leases ttl _ ∙ laws.zcard-zadd_old leases id _ old db h

  -- What the script does from `live` on, the keyspace without the leases that have expired.
  record Decided (id : Text) (now ttl max_concurrent : ℕ) (live : Keyspace) (p : Reply × Keyspace)
      : Type 0 where
    others : (m : Text) → text_eq id m ≡ false → zscore leases m p.1 ≡ zscore leases m live
    holds : p.0 ≡ granted → zscore leases id p.1 ≡ some (now + suc ttl)
    refused : p.0 ≢ granted → (m : Text) → zscore leases m p.1 ≡ zscore leases m live
    bounded : zcard leases p.1 ≤ max (zcard leases live) max_concurrent

  module _ (id : Text) (now ttl max_concurrent : ℕ) (live : Keyspace) where
    abbrev Goal : Reply × Keyspace → Type 0
    Goal p = Decided id now ttl max_concurrent live p

    -- The keyspace past the counter, with the same leases.
    Same : Keyspace → Type 0
    Same db =
        ((m : Text) → zscore leases m db ≡ zscore leases m live)
        × (zcard leases db ≡ zcard leases live)

    counted-Same : Same (count_attempt r (cps_key prefix) live).1
    unfolding Same
    counted-Same = (λ m. counted-zscore m live, counted-zcard live)

    refused-Goal : (reply : Reply) (db : Keyspace) → reply ≢ granted → Same db → Goal (reply, db)
    unfolding Same
    refused-Goal reply db n s = record {
      others = λ m e. s.0 m;
      holds = λ e. absurd (n e);
      refused = λ e m. s.0 m;
      bounded = omega (arith, s.1);
    }

    put-Goal :
        (db : Keyspace)
        → Same db
        → zcard leases (put_lease r leases now (suc ttl) id db)
          ≤ max (zcard leases live) max_concurrent
        → Goal (granted, put_lease r leases now (suc ttl) id db)
    unfolding Same
    put-Goal db s b = record {
      others = λ m e.
          put-zscore m id now ttl db
          ∙ ap (λ t. if t then some (now + suc ttl) else zscore leases m db) e
          ∙ s.0 m;
      holds = λ e.
          put-zscore id id now ttl db
          ∙ ap (λ t. if t then some (now + suc ttl) else zscore leases id db) (text_eq_refl id);
      refused = λ e m. absurd (e refl);
      bounded = b;
    }

    admit-Goal :
        (max_cps : ℕ)
        → zscore leases id live ≡ none
        → Goal (admit r prefix id max_cps max_concurrent now (suc ttl) live)
    unfolding admit Same
    admit-Goal max_cps absent =
        let counted = count_attempt r (cps_key prefix) live in
        let same = counted-Same in
        elim (Bool-cases (ltb max_cps counted.0)) [
          | inl e ↦ rw e (refused-Goal over_cps counted.1 (cc) same)
          | inr e ↦ rw e (elim (Bool-cases (leb max_concurrent (zcard leases counted.1))) [
            | inl f ↦ rw f (refused-Goal over_concurrent counted.1 (cc) same)
            | inr f ↦ rw f (
                put-Goal counted.1 same (
                  rw (put-zcard_new id now ttl counted.1 (counted-zscore id live ∙ absent))
                    (ground arith)))
          ])
        ]

    held-Goal :
        (score : ℕ)
        → zscore leases id live ≡ some score
        → Goal (granted, put_lease r leases now (suc ttl) id live)
    unfolding Same
    held-Goal score h =
        put-Goal live (λ m. refl, refl) (omega (arith, put-zcard_old id now ttl score live h))

  -- What one run of the acquisition script does to the leases of a trunk, at the time `now`.
  pub record Acquired (id : Text) (now ttl max_concurrent : ℕ) (db : Keyspace)
      (p : Reply × Keyspace) : Type 0 where
    pub others_kept :
        (m : Text) → text_eq id m ≡ false → zscore leases m p.1 ≡ above now (zscore leases m db)
    pub lease_held : p.0 ≡ granted → zscore leases id p.1 ≡ some (now + ttl)
    pub nothing_taken :
        p.0 ≢ granted → (m : Text) → zscore leases m p.1 ≡ above now (zscore leases m db)
    pub within_limit : zcard leases p.1 ≤ max (zcard leases db) max_concurrent

  pruned-Acquired :
      (id : Text) (now ttl max_concurrent : ℕ) (db : Keyspace) (p : Reply × Keyspace)
      → Decided id now ttl max_concurrent (zremrangebyscore leases now db) p
      → Acquired id now (suc ttl) max_concurrent db p
  pruned-Acquired id now ttl max_concurrent db p d = record {
    others_kept = λ m e. d.others m e ∙ laws.zscore-prune leases m now db;
    lease_held = d.holds;
    nothing_taken = λ e m. d.refused e m ∙ laws.zscore-prune leases m now db;
    within_limit = omega (arith, d.bounded, laws.zcard-prune leases now db);
  }

  -- With a positive time to live, by the laws of sorted sets: the script drops the leases that have
  -- expired and leaves those of others as they are; a grant leaves the caller's lease, which ends that
  -- time from now; a refusal takes no lease; and the number of leases never rises above the limit on
  -- concurrent calls, unless it was above it before.
  pub acquire_script-Acquired :
      (id : Text) (max_cps max_concurrent now ttl : ℕ) (db : Keyspace)
      → Acquired id now
          (suc ttl)
          max_concurrent
          db
          (acquire_script r prefix id max_cps max_concurrent now (suc ttl) db)
  unfolding acquire_script
  acquire_script-Acquired id max_cps max_concurrent now ttl db =
      let live = zremrangebyscore leases now db in
      pruned-Acquired id now ttl max_concurrent db _ (elim (Option-cases (zscore leases id live)) [
        | inl absent ↦
            rw (absent, acquire_script) (admit-Goal id now ttl max_concurrent live max_cps absent)
        | inr (score, held) ↦
            rw (held, acquire_script) (held-Goal id now ttl max_concurrent live score held)
      ])
