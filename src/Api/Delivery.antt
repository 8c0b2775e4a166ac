-- ===== src/Api/Delivery.antt =====
-- What a socket of apps/api/main.py has received, against what was broadcast while it was open.
use text.Mathlib.Text.{◌==◌ as str_eq}
use mathlib.Core.List.{Sublistᴰ, append_assoc}
use defect_sense.Prelude.{
  ℕ, suc, ◌+◌, ◌≤◌, ◌<◌, ◌≡◌, ◌⊎◌, refl, sym, ap, String, true, false, Option, none, some, List, [],
  ◌∷◌, ◌++◌, arith, length, ltb, if◌then◌else◌, Bool-cases, inl, inr, length-append,
}
use defect_sense.Auth.Gates.{StationScope}
use defect_sense.Api.Feed.{
  queue_max, Frame, hello, news, Connection, Step, arrives, broadcasts, leaves, meant_for, offer,
  drop_note, send_from,
}

abbrev pub in_note : Option ℕ → ℕ
in_note none = 0
in_note (some n) = n

in_note-drop_note : (n : ℕ) → in_note (drop_note n) ≡ n
in_note-drop_note n = ground arith

module _ {M : Type 0} where
  -- The messages that were sent, and the number of those that the notes say were dropped.
  unfoldable pub delivered : List (Frame M) → List M
  delivered [] = []
  delivered (hello scope known ∷ frames) = delivered frames
  delivered (news message missed ∷ frames) = message ∷ delivered frames

  unfoldable pub noted : List (Frame M) → ℕ
  noted [] = 0
  noted (hello scope known ∷ frames) = noted frames
  noted (news message missed ∷ frames) = in_note missed + noted frames

  -- What a run broadcasts for a scope.
  unfoldable pub meant : StationScope → List (Step M) → List M
  meant scope [] = []
  meant scope (broadcasts station message ∷ steps) =
      let rest = meant scope steps in if meant_for station scope then message ∷ rest else rest
  meant scope (_ ∷ steps) = meant scope steps

  -- The connection `k` is neither closed nor replaced.
  abbrev pub StaysOpen : String → List (Step M) → Type 0
  StaysOpen k [] = Unit
  StaysOpen k (arrives j identity ∷ steps) = (str_eq j k ≡ false) × StaysOpen k steps
  StaysOpen k (leaves j ∷ steps) = (str_eq j k ≡ false) × StaysOpen k steps
  StaysOpen k (_ ∷ steps) = StaysOpen k steps

  -- The books of a connection on the messages meant for it: what was sent and what waits are among them,
  -- in their order; the others are counted, in a note that was sent or in the next one, which has a
  -- message to go with.
  pub record IsAccounted (messages : List M) (c : Connection M) : Type 0 where
    pub bounded : length c.subscriber.queue ≤ queue_max
    pub in_order : Sublistᴰ (delivered c.sent ++ c.subscriber.queue) messages
    pub counted :
        length messages
        ≡ length (delivered c.sent)
          + length c.subscriber.queue
          + (noted c.sent + c.subscriber.dropped)
    pub pending : (c.subscriber.dropped ≡ 0) ⊎ (0 < length c.subscriber.queue)

  one_end : (message : M) → Sublistᴰ (message ∷ []) (message ∷ [])
  one_end message = Sublistᴰ.cons-cons refl Sublistᴰ.slnil

  Sublist-snoc :
      {xs ys : List M} (message : M)
      → Sublistᴰ xs ys
      → Sublistᴰ (xs ++ (message ∷ [])) (ys ++ (message ∷ []))
  Sublist-snoc message Sublistᴰ.slnil = one_end message
  Sublist-snoc message (Sublistᴰ.cons s) = Sublistᴰ.cons (Sublist-snoc message s)
  Sublist-snoc message (Sublistᴰ.cons-cons e s) = Sublistᴰ.cons-cons e (Sublist-snoc message s)

  Sublist-skip :
      {xs ys : List M} (message : M) → Sublistᴰ xs ys → Sublistᴰ xs (ys ++ (message ∷ []))
  Sublist-skip message Sublistᴰ.slnil = Sublistᴰ.cons Sublistᴰ.slnil
  Sublist-skip message (Sublistᴰ.cons s) = Sublistᴰ.cons (Sublist-skip message s)
  Sublist-skip message (Sublistᴰ.cons-cons e s) = Sublistᴰ.cons-cons e (Sublist-skip message s)

  delivered-append :
      (frames : List (Frame M)) (message : M) (missed : Option ℕ)
      → delivered (frames ++ (news message missed ∷ [])) ≡ delivered frames ++ (message ∷ [])
  unfolding delivered
  delivered-append [] message missed = refl
  delivered-append (hello scope known ∷ frames) message missed =
      delivered-append frames message missed
  delivered-append (news other n ∷ frames) message missed =
      ap (λ ms. other ∷ ms) (delivered-append frames message missed)

  noted-append :
      (frames : List (Frame M)) (message : M) (missed : Option ℕ)
      → noted (frames ++ (news message missed ∷ [])) ≡ noted frames + in_note missed
  unfolding noted
  noted-append [] message missed = omega arith
  noted-append (hello scope known ∷ frames) message missed = noted-append frames message missed
  noted-append (news other n ∷ frames) message missed =
      omega (arith, noted-append frames message missed)

  module _ (messages : List M) (c : Connection M) (a : IsAccounted messages c) where
    pub offer-IsAccounted :
        (station : Option String) (message : M)
        → meant_for station c.subscriber.scope ≡ true
        → IsAccounted
            (messages ++ (message ∷ []))
            (record c { subscriber = offer station message c.subscriber })
    unfolding offer
    offer-IsAccounted station message mine =
        elim (Bool-cases (ltb (length c.subscriber.queue) queue_max)) [
          | inl room ↦
              rw (mine, room)
                (record {
                  bounded = rw (length-append c.subscriber.queue (message ∷ [])) (ground arith);
                  in_order =
                      rw (sym (append_assoc (delivered c.sent) c.subscriber.queue (message ∷ [])))
                        (Sublist-snoc message a.in_order);
                  counted =
                      rw
                        (
                          length-append messages (message ∷ []),
                          length-append c.subscriber.queue (message ∷ []),
                        )
                        (omega (arith, a.counted));
                  pending =
                      inr (rw (length-append c.subscriber.queue (message ∷ [])) (omega arith));
                })
          | inr full ↦
              rw (mine, full)
                (record {
                  bounded = a.bounded;
                  in_order = Sublist-skip message a.in_order;
                  counted = rw (length-append messages (message ∷ [])) (omega (arith, a.counted));
                  pending = inr (ground arith);
                })
        ]

    pub send_from-IsAccounted :
        (queue : List M) → c.subscriber.queue ≡ queue → IsAccounted messages (send_from c queue)
    send_from-IsAccounted [] e = a
    send_from-IsAccounted (message ∷ queue) e =
        let sized : length c.subscriber.queue ≡ suc (length queue) = rw e refl in
        record {
          bounded = omega (arith, sized, a.bounded);
          in_order =
              rw (delivered-append c.sent message (drop_note c.subscriber.dropped))
                (rw (append_assoc (delivered c.sent) (message ∷ []) queue, sym e) a.in_order);
          counted =
              rw
                (
                  delivered-append c.sent message (drop_note c.subscriber.dropped),
                  length-append (delivered c.sent) (message ∷ []),
                  noted-append c.sent message (drop_note c.subscriber.dropped),
                  in_note-drop_note c.subscriber.dropped,
                )
                (omega (arith, sized, a.counted));
          pending = inl refl;
        }
