-- ===== src/Kafka/Push.antt =====
-- internal/source/kafka/kafka.go: `New`, and `Start`, the push-shaped entry, which marks every message that it
-- has polled. The client and the context are a list of polls.
use Prim.Native.String.{String}
use text.Mathlib.Text.{◌==◌ as str_eq}
use netflow_collector.Base.{
  ◌≡◌, refl, ap, sym, ◌∙◌, Bool, true, false, not, ◌||◌, Option, none, some, List, [], ◌∷◌, ◌++◌,
  map, length, ◌==◌, if◌then◌else◌, arith, append-nil, append_assoc, Bool-cases, inl, inr,
}
use netflow_collector.Flow.Record.{FlowRecord}

-- `New`: whether brokers, topic and group are set.
unfoldable pub new_consumer : List String → String → String → Bool
new_consumer brokers topic group = not ((length brokers == 0) || str_eq topic "" || str_eq group "")

either_way :
    {A : Type 0} (P : A → Type 0) (b : Bool) (x y : A)
    → (b ≡ true → P x)
    → (b ≡ false → P y)
    → P (if b then x else y)
either_way P true x y p q = p refl
either_way P false x y p q = q refl

module _ {Message : Type 0} (decode : Message → Option FlowRecord) where
  -- What has been marked and sent; `stop` is set when the context ends during a send.
  pub record Turn : Type 0 where
    pub marked : List Message
    pub out : List FlowRecord
    pub stop : Bool

  -- The select: the record is sent, or the context ends first.
  unfoldable pub send_one : Option FlowRecord → Bool → Turn → Turn
  send_one none sent t = t
  send_one (some r) true t = record t { out = t.out ++ (r ∷ []) }
  send_one (some r) false t = record t { stop = true }

  unfoldable pub take_message : Message → Bool → Turn → Turn
  take_message m sent t =
      if t.stop then t else send_one (decode m) sent (record t { marked = t.marked ++ (m ∷ []) })

  unfoldable pub take_messages : List (Message × Bool) → Turn → Turn
  take_messages [] t = t
  take_messages ((m, sent) ∷ ms) t = take_messages ms (take_message m sent t)

  -- A poll returns because the context has ended, or with messages, each with what the select does.
  pub data PushPoll : Type 0 where
    ended : PushPoll
    messages : List (Message × Bool) → PushPoll

  -- The loop; the Bool is whether it has ended, with `commitOnShutdown`, which commits what is marked.
  unfoldable pub push_loop : List PushPoll → Turn → Turn × Bool
  push_loop [] t = (t, false)
  push_loop (ended ∷ ps) t = (t, true)
  push_loop (messages ms ∷ ps) t =
      let next = take_messages ms t in
      let rest = push_loop ps next in if next.stop then (next, true) else rest

  abbrev pub fresh : Turn
  fresh = record { marked = []; out = []; stop = false }

  -- `Start`; without a client, it fails.
  unfoldable pub start_push : Bool → List PushPoll → Option (Turn × Bool)
  start_push client polls = let run = push_loop polls fresh in if client then some run else none

  abbrev pub with_record : Option FlowRecord → List FlowRecord → List FlowRecord
  with_record none rs = rs
  with_record (some r) rs = r ∷ rs

  unfoldable pub decoded : List Message → List FlowRecord
  decoded [] = []
  decoded (m ∷ ms) = with_record (decode m) (decoded ms)

  with_record-append :
      (o : Option FlowRecord) (xs ys : List FlowRecord)
      → with_record o (xs ++ ys) ≡ with_record o xs ++ ys
  with_record-append none xs ys = refl
  with_record-append (some r) xs ys = refl

  decoded-append : (xs ys : List Message) → decoded (xs ++ ys) ≡ decoded xs ++ decoded ys
  unfolding decoded
  decoded-append [] ys = refl
  decoded-append (x ∷ xs) ys =
      ap (with_record (decode x)) (decoded-append xs ys)
      ∙ with_record-append (decode x) (decoded xs) (decoded ys)

  -- What was decoded of the marked messages has been sent, save one record if the loop was stopped, and
  -- none while it goes on.
  pub record Accounts (t : Turn) : Type 0 where
    pub lost : List FlowRecord
    pub split : decoded t.marked ≡ t.out ++ lost
    pub cause : t.stop ≡ true → length lost ≡ 1
    pub going : t.stop ≡ false → lost ≡ []

  decoded-one :
      (m : Message) (o : Option FlowRecord) → decode m ≡ o → decoded (m ∷ []) ≡ with_record o []
  unfolding decoded
  decoded-one m o e = ap (λ x. with_record x []) e

  marked_lem :
      (m : Message) (t : Turn) (h : Accounts t) (new : List FlowRecord)
      → t.stop ≡ false
      → decoded (m ∷ []) ≡ new
      → decoded (t.marked ++ (m ∷ [])) ≡ t.out ++ new
  marked_lem m t h new going e =
      decoded-append t.marked (m ∷ [])
      ∙ ap (λ l. l ++ decoded (m ∷ [])) (h.split ∙ ap (λ l. t.out ++ l) (h.going going))
      ∙ ap (λ l. l ++ decoded (m ∷ [])) (append-nil t.out)
      ∙ ap (λ l. t.out ++ l) e

  send_one-Accounts :
      (m : Message) (o : Option FlowRecord) (sent : Bool) (t : Turn)
      → decode m ≡ o
      → Accounts t
      → t.stop ≡ false
      → Accounts (send_one o sent (record t { marked = t.marked ++ (m ∷ []) }))
  unfolding send_one
  send_one-Accounts m none sent t e h going = record {
    lost = [];
    split = marked_lem m t h [] going (decoded-one m none e);
    cause = λ g. absurd (ground (arith, g, going));
    going = λ g. refl;
  }
  send_one-Accounts m (some r) true t e h going = record {
    lost = [];
    split =
        marked_lem m t h (r ∷ []) going (decoded-one m (some r) e)
        ∙ sym (append-nil (t.out ++ (r ∷ [])));
    cause = λ g. absurd (ground (arith, g, going));
    going = λ g. refl;
  }
  send_one-Accounts m (some r) false t e h going = record {
    lost = r ∷ [];
    split = marked_lem m t h (r ∷ []) going (decoded-one m (some r) e);
    cause = λ g. refl;
    going = λ g. absurd (ground (arith, g));
  }

  take_message-Accounts :
      (m : Message) (sent : Bool) (t : Turn) → Accounts t → Accounts (take_message m sent t)
  unfolding take_message
  take_message-Accounts m sent t h =
      either_way Accounts t.stop t _ (λ stopped. h)
        (λ going. send_one-Accounts m (decode m) sent t refl h going)

  take_messages-Accounts :
      (ms : List (Message × Bool)) (t : Turn) → Accounts t → Accounts (take_messages ms t)
  unfolding take_messages
  take_messages-Accounts [] t h = h
  take_messages-Accounts ((m, sent) ∷ ms) t h =
      take_messages-Accounts ms (take_message m sent t) (take_message-Accounts m sent t h)

  push_loop-Accounts :
      (polls : List PushPoll) (t : Turn) → Accounts t → Accounts (push_loop polls t).0
  unfolding push_loop
  push_loop-Accounts [] t h = h
  push_loop-Accounts (ended ∷ ps) t h = h
  push_loop-Accounts (messages ms ∷ ps) t h =
      let next = take_messages ms t in
      let kept = take_messages-Accounts ms t h in
      either_way (λ p. Accounts p.0) next.stop (next, true) (push_loop ps next) (λ stopped. kept)
        (λ going. push_loop-Accounts ps next kept)

  -- The messages of the polls before the one that returns at the end of the context.
  abbrev pub polled : List PushPoll → List Message
  polled [] = []
  polled (ended ∷ ps) = []
  polled (messages ms ∷ ps) = map (λ m. m.0) ms ++ polled ps

  stop-stays : (ms : List (Message × Bool)) (t : Turn) → t.stop ≡ true → take_messages ms t ≡ t
  unfolding take_messages take_message
  stop-stays [] t h = refl
  stop-stays ((m, sent) ∷ ms) t h = ap (take_messages ms) (ground (arith, h)) ∙ stop-stays ms t h

  send_one-marked :
      (o : Option FlowRecord) (sent : Bool) (t : Turn) → (send_one o sent t).marked ≡ t.marked
  unfolding send_one
  send_one-marked none sent t = refl
  send_one-marked (some r) true t = refl
  send_one-marked (some r) false t = refl

  take_message-marked :
      (m : Message) (sent : Bool) (t : Turn)
      → t.stop ≡ false
      → (take_message m sent t).marked ≡ t.marked ++ m ∷ []
  unfolding take_message
  take_message-marked m sent t h = rw h (send_one-marked (decode m) sent _)

  going_before :
      (ms : List (Message × Bool)) (t : Turn) → (take_messages ms t).stop ≡ false → t.stop ≡ false
  going_before ms t h = elim (Bool-cases t.stop) [
    | inl stopped ↦ absurd (ground (arith, ap (λ u. u.stop) (stop-stays ms t stopped), h, stopped))
    | inr going ↦ going
  ]

  take_messages-marked :
      (ms : List (Message × Bool)) (t : Turn)
      → (take_messages ms t).stop ≡ false
      → (take_messages ms t).marked ≡ t.marked ++ map (λ m. m.0) ms
  unfolding take_messages
  take_messages-marked [] t h = sym (append-nil t.marked)
  take_messages-marked ((m, sent) ∷ ms) t h =
      take_messages-marked ms (take_message m sent t) h
      ∙ ap (λ l. l ++ map (λ k. k.0) ms)
          (take_message-marked m sent t (going_before ((m, sent) ∷ ms) t h))
      ∙ append_assoc t.marked (m ∷ []) (map (λ k. k.0) ms)

  push_loop-marked :
      (polls : List PushPoll) (t : Turn)
      → (push_loop polls t).0.stop ≡ false
      → (push_loop polls t).0.marked ≡ t.marked ++ polled polls
  unfolding push_loop
  push_loop-marked [] t h = sym (append-nil t.marked)
  push_loop-marked (ended ∷ ps) t h = sym (append-nil t.marked)
  push_loop-marked (messages ms ∷ ps) t h =
      let next = take_messages ms t in
      either_way (λ p. p.0.stop ≡ false → p.0.marked ≡ t.marked ++ (map (λ m. m.0) ms ++ polled ps))
        next.stop (next, true) (push_loop ps next)
        (λ stopped g. absurd (ground (arith, stopped, g)))
        (λ going g.
          push_loop-marked ps next g
          ∙ ap (λ l. l ++ polled ps) (take_messages-marked ms t going)
          ∙ append_assoc t.marked (map (λ m. m.0) ms) (polled ps))
        h

  -- Whatever is polled and whenever the context ends, from the start of `Start`: of the messages that it
  -- marks, all that could be decoded have been sent, in order, save the last one at most. It is stopped only
  -- while a record that could be decoded was being sent, which is the one lost; if it was not stopped,
  -- every message polled before the context ended is marked: one that cannot be decoded stops nothing.
  pub push_loop_complete :
      (polls : List PushPoll)
      → Accounts (push_loop polls fresh).0
        × ((push_loop polls fresh).0.stop ≡ false → (push_loop polls fresh).0.marked ≡ polled polls)
  push_loop_complete polls = (
    push_loop-Accounts polls fresh (record {
      lost = [];
      split = (unfold decoded in refl);
      cause = λ g. absurd (ground (arith, g));
      going = λ g. refl;
    }),
    push_loop-marked polls fresh,
  )
