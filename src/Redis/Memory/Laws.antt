-- ===== src/Redis/Memory/Laws.antt =====
-- The memory keeps the laws of the interface.
use monogo.Base.{
  ℕ, suc, ◌≡◌, refl, sym, ap, ◌∙◌, Option, none, some, Text, text_eq, text_eq_refl, Bool, true,
  false, if◌then◌else◌, arith, ◌∷◌,
}
use monogo.Redis.{RedisLaws, above}
use monogo.Redis.Memory.{Memory, memory, change_set}
use monogo.Redis.Memory.Sets.{
  SortedSet, score, card, without, keep_above, is_some, score-keep, score-without, card-without,
  card-keep-le, less, card-zadd,
}

changed :
    (k : Text) (f : SortedSet → SortedSet) (db : Memory)
    → (change_set k f db).sets k ≡ f (db.sets k)
changed k f db = rw (text_eq_refl k) refl

shadowed :
    (b : Bool) (v o : Option ℕ) → (if b then v else if b then none else o) ≡ (if b then v else o)
shadowed true v o = refl
shadowed false v o = refl

pruned : (b : ℕ) (o : Option ℕ) → (if is_some (above b o) then o else none) ≡ above b o
pruned b none = refl
pruned b (some s) = ground arith

pub memory-RedisLaws : RedisLaws memory
memory-RedisLaws = record {
  zscore-zadd = λ k m s m' db.
      ap (score m) (changed k (λ set. (m', s) ∷ without m' set) db)
      ∙ ap (λ o. if text_eq m' m then some s else o) (score-without m' m (db.sets k))
      ∙ shadowed (text_eq m' m) (some s) (score m (db.sets k));
  zscore-zrem =
      λ k m m' db. ap (score m) (changed k (without m') db) ∙ score-without m' m (db.sets k);
  zscore-prune = λ k m bound db.
      ap (score m) (changed k (λ set. keep_above bound set set) db)
      ∙ score-keep _ m (db.sets k)
      ∙ pruned bound (score m (db.sets k));
  zscore-pexpire = λ k m j ttl db. refl;
  zscore-incr = λ k m j db n. refl;
  zcard-zadd_new = λ k m s db h.
      ap card (changed k (λ set. (m, s) ∷ without m set) db)
      ∙ card-zadd m s (db.sets k)
      ∙ ap suc
          (ap (λ o. less o (card (without m (db.sets k)))) (sym h) ∙ card-without m (db.sets k));
  zcard-zadd_old = λ k m s old db h.
      ap card (changed k (λ set. (m, s) ∷ without m set) db)
      ∙ card-zadd m s (db.sets k)
      ∙ ap (λ o. less o (card (without m (db.sets k)))) (sym h)
      ∙ card-without m (db.sets k);
  zcard-zrem_old = λ k m old db h.
      ap (λ set. suc (card set)) (changed k (without m) db)
      ∙ ap (λ o. less o (card (without m (db.sets k)))) (sym h)
      ∙ card-without m (db.sets k);
  zcard-zrem_new = λ k m db h.
      ap card (changed k (without m) db)
      ∙ ap (λ o. less o (card (without m (db.sets k)))) (sym h)
      ∙ card-without m (db.sets k);
  zcard-prune = λ k bound db.
      rw (changed k (λ set. keep_above bound set set) db) (card-keep-le _ (db.sets k));
  zcard-pexpire = λ k j ttl db. refl;
  zcard-incr = λ k j db n. refl;
}
