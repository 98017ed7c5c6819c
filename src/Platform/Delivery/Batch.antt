-- ===== src/Platform/Delivery/Batch.antt =====
-- What a batch of deliveries keeps, whatever the network and the endpoints answer.
use monogo.Base.{ℕ, Bool, true, false, List, [], ◌∷◌}
use monogo.Effects.{World, M, ◌>>◌, remote}
use monogo.Effects.Rules.{bind_rule, remote_rule}
use monogo.Platform.Delivery.{
  DeliveryJobConfig, DeliveryAttempt, Deliveries, Claim, Reply, updated, no_row, refused, Verdict,
  statement, verdict, settle_delivery, deliver_claimed, unless_done, replied,
}

-- What the statements of a worker keep of a database.
pub record Kept (P : Deliveries → Type 0) (c : DeliveryJobConfig) : Type 0 where
  pub keeps :
      (id : ℕ) (a : DeliveryAttempt) (now : ℕ) (v : Verdict) (db : Deliveries)
      → P db
      → P (statement c id a now v db).1

module _ {K : Type 0} (P : Deliveries → Type 0) (c : DeliveryJobConfig) (kept : Kept P c) where
  abbrev Holds : World Deliveries K → Type 0
  Holds w = P w.database

  replied-Holds : (reply : Reply) (w : World Deliveries K) → Holds w → Holds (replied c reply w).1
  unfolding replied
  replied-Holds updated w h = h
  replied-Holds no_row w h = h
  replied-Holds refused w h = h

  settle-Holds :
      (d : Claim) (a : DeliveryAttempt) (w : World Deliveries K)
      → Holds w
      → Holds (settle_delivery c d a w).1
  unfolding settle_delivery
  settle-Holds d a w h =
      let v = verdict c d.attempt_count a in
      bind_rule (λ r w. Holds w) (λ r w. Holds w)
        (remote (λ w. (
          (statement c d.id a w.now v w.database).0,
          record w { database = (statement c d.id a w.now v w.database).1 },
        )))
        w (replied c)
        (remote_rule (λ r w. Holds w) _ w (kept.keeps d.id a w.now v w.database h) h
          (kept.keeps d.id a w.now v w.database h))
        (λ e v i. i) (λ reply v i. replied-Holds reply v i)

  module _ (send : Claim → World Deliveries K → DeliveryAttempt)
      (done : World Deliveries K → Bool) where
    unless_done-Holds :
        (b : Bool) (m : M Deliveries K (Unit {0})) (w : World Deliveries K)
        → Holds w
        → Holds (m w).1
        → Holds (unless_done c send done b m w).1
    unfolding unless_done
    unless_done-Holds true m w h k = h
    unless_done-Holds false m w h k = k

    pub deliver_claimed-Holds :
        (ds : List Claim) (w : World Deliveries K)
        → Holds w
        → Holds (deliver_claimed c send done ds w).1
    unfolding deliver_claimed
    deliver_claimed-Holds [] w h = h
    deliver_claimed-Holds (d ∷ ds) w h =
        unless_done-Holds (done w)
          (settle_delivery c d (send d w) >> deliver_claimed c send done ds) w h
          (bind_rule (λ r w. Holds w) (λ r w. Holds w) (settle_delivery c d (send d w)) w
            (λ u. deliver_claimed c send done ds) (settle-Holds d (send d w) w h) (λ e v i. i)
            (λ u v i. deliver_claimed-Holds ds v i))
