-- ===== src/Api/Live.antt =====
-- The live feed of apps/api/main.py over a run: connections that come and go, broadcasts, and sends at
-- any pace.
use text.Mathlib.Text.{◌==◌ as str_eq}
use text.Mathlib.TextPositions.{eq_refl}
use mathlib.Core.List.{Sublistᴰ, append_assoc, append-nil}
use defect_sense.Prelude.{
  ◌≡◌, refl, sym, ap, ◌∙◌, String, false, Option, none, some, List, [], ◌∷◌, ◌++◌, arith,
  Bool-cases, inl, inr, some_inj,
}
use defect_sense.Dict.{Dict, lookup, insert, remove, lookup-insert, lookup-remove, eq_iff}
use defect_sense.Auth.{RbacMatrix}
use defect_sense.Auth.Gates.{StationScope, WsIdentity}
use defect_sense.Api.Feed.{
  Connection, Step, arrives, broadcasts, sends, leaves, meant_for, offer, broadcast, send_from,
  send_next, scope_of, connect, step, run, sent_in,
}
use defect_sense.Api.Delivery.{
  delivered, noted, meant, StaysOpen, IsAccounted, offer-IsAccounted, send_from-IsAccounted,
}

module _ {M : Type 0} where
  lookup-broadcast :
      (station : Option String) (message : M) (k : String) (c : Connection M)
      (feed : Dict (Connection M))
      → lookup k feed ≡ some c
      → lookup k (broadcast station message feed)
        ≡ some (record c { subscriber = offer station message c.subscriber })
  unfolding lookup broadcast
  lookup-broadcast station message k c [] e = absurd (ground arith)
  lookup-broadcast station message k c ((j, d) ∷ feed) e = elim (Bool-cases (str_eq j k)) [
    | inl same ↦ rw same (ap (λ (x : Connection M). some (offered x)) (some_inj (rw same at e)))
    | inr other ↦ rw other (lookup-broadcast station message k c feed (rw other at e))
  ]
    where
      offered : Connection M → Connection M
      offered x = record x { subscriber = offer station message x.subscriber }

  scope-offer :
      (station : Option String) (message : M) (c : Connection M)
      → (offer station message c.subscriber).scope ≡ c.subscriber.scope
  unfolding offer
  scope-offer station message c = ground arith

  scope-send_from :
      (c : Connection M) (queue : List M)
      → (send_from c queue).subscriber.scope ≡ c.subscriber.scope
  scope-send_from c [] = refl
  scope-send_from c (message ∷ queue) = refl

  offer_other :
      (station : Option String) (message : M) (c : Connection M)
      → meant_for station c.subscriber.scope ≡ false
      → record c { subscriber = offer station message c.subscriber } ≡ c
  unfolding offer
  offer_other station message c e = rw e refl

  lookup-sent_own :
      (k : String) (c : Connection M) (feed : Dict (Connection M))
      → lookup k feed ≡ some c
      → lookup k (sent_in k (lookup k feed) feed) ≡ some (send_next c)
  lookup-sent_own k c feed e =
      rw (sent_in, e) (rw (lookup-insert k k (send_next c) feed, eq_refl k) refl)

  lookup-sent_in :
      (j k : String) (o : Option (Connection M)) (feed : Dict (Connection M))
      → str_eq j k ≡ false
      → lookup k (sent_in j o feed) ≡ lookup k feed
  lookup-sent_in j k none feed other = refl
  lookup-sent_in j k (some c) feed other = rw (lookup-insert j k (send_next c) feed, other) refl

  kept_books :
      (m : RbacMatrix) (k : String) (scope : StationScope) (steps : List (Step M))
      (feed : Dict (Connection M)) (messages : List M) (c : Connection M)
      → StaysOpen k steps
      → lookup k feed ≡ some c
      → c.subscriber.scope ≡ scope
      → IsAccounted messages c
      → (last : Connection M) × (lookup k (run m steps feed) ≡ some last)
        × IsAccounted (messages ++ meant scope steps) last
  unfolding run step meant send_next
  kept_books m k scope [] feed messages c stays e scoped a = (c, e, rw (append-nil messages) a)
  kept_books m k scope (arrives j identity ∷ steps) feed messages c (other, stays) e scoped a =
      kept_books m k scope steps (insert j (connect m identity) feed) messages c stays
        (rw (lookup-insert j k (connect m identity) feed, other) e) scoped a
  kept_books m k scope (leaves j ∷ steps) feed messages c (other, stays) e scoped a =
      kept_books m k scope steps (remove j feed) messages c stays
        (rw (lookup-remove j k feed, other) e) scoped a
  kept_books m k scope (broadcasts station message ∷ steps) feed messages c stays e scoped a =
      let there = lookup-broadcast station message k c feed e in
      let next : Connection M = record c { subscriber = offer station message c.subscriber } in
      elim (Bool-cases (meant_for station scope)) [
        | inl mine ↦
            rw (mine, sym (append_assoc messages (message ∷ []) (meant scope steps)))
              (kept_books m k scope steps (broadcast station message feed)
                (messages ++ (message ∷ [])) next stays there
                (scope-offer station message c ∙ scoped)
                (offer-IsAccounted messages c a station message (rw scoped mine)))
        | inr other ↦ rw other (
            kept_books m k scope steps (broadcast station message feed) messages c stays
              (there ∙ ap some (offer_other station message c (rw scoped other))) scoped a)
      ]
  kept_books m k scope (sends j ∷ steps) feed messages c stays e scoped a =
      elim (Bool-cases (str_eq j k)) [
        | inl same ↦
            kept_books m k scope steps (sent_in j (lookup j feed) feed) messages (send_next c) stays
              (rw ((eq_iff j k).0 same) (lookup-sent_own k c feed e))
              (scope-send_from c c.subscriber.queue ∙ scoped)
              (send_from-IsAccounted messages c a c.subscriber.queue refl)
        | inr other ↦
            kept_books m k scope steps (sent_in j (lookup j feed) feed) messages c stays
              (lookup-sent_in j k (lookup j feed) feed other ∙ e) scoped a
      ]

  -- Nothing that is meant for a socket is lost without notice. From when a socket is opened, in any run in
  -- which it is neither closed nor replaced, it stays subscribed; at most 64 messages wait for it; what
  -- it was sent, with what waits, are messages that were broadcast for its scope (its stations, or all),
  -- in that order; and the others are as many as the notes that it was sent say, with the count that
  -- goes out with the next message, of which there is one waiting unless that count is 0.
  pub nothing_lost_silently :
      (m : RbacMatrix) (k : String) (identity : WsIdentity) (steps : List (Step M))
      (feed : Dict (Connection M))
      → StaysOpen k steps
      → (last : Connection M) × (lookup k (run m (arrives k identity ∷ steps) feed) ≡ some last)
        × IsAccounted (meant (scope_of m identity.user) steps) last
  unfolding run step connect delivered noted
  nothing_lost_silently m k identity steps feed stays =
      kept_books m k (scope_of m identity.user) steps (insert k (connect m identity) feed) []
        (connect m identity) stays
        (rw (lookup-insert k k (connect m identity) feed, eq_refl k) refl) refl
        (record {
          bounded = omega arith;
          in_order = Sublistᴰ.slnil;
          counted = refl;
          pending = inl refl;
        })
