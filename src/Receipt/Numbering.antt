-- ===== src/Receipt/Numbering.antt =====
-- What the loop over the messages of src/commercialrchproxy/rch/receipt_parser.py collects.
use commercial_rchproxy.Common.{
  ℕ, suc, ◌+◌, ◌≤◌, ◌<◌, Option, none, some, List, [], ◌∷◌, ◌++◌, length, length-append, take, drop,
  take-nil, take-append, take_all, length-take, drop-nil, drop-append, drop_all, leb, map, ◌≡◌,
  refl, sym, ap, subst, ◌∙◌, if-cases, arith, append_assoc, append-nil,
}
use commercial_rchproxy.Framing.Types.{StreamEvent, event_offset}
use commercial_rchproxy.Receipt.Messages.{
  Direction, request, response, ProtocolMessage, MessageLimit, Messages, message_from,
  note_message_limit, add_messages, messages_of,
}

abbrev pub Event : Type 0
Event = Direction × StreamEvent

-- The events of a direction.
abbrev pub toward : Direction → List StreamEvent → List Event
toward direction = map (λ e. (direction, e))

-- The messages of events, numbered from `n`.
abbrev pub numbered : ℕ → List Event → List ProtocolMessage
numbered n [] = []
numbered n ((direction, e) ∷ es) = message_from n direction e ∷ numbered (suc n) es

-- The first of the events that are left out, if there is one.
abbrev pub first_omitted : List Event → Option MessageLimit
first_omitted [] = none
first_omitted ((direction, e) ∷ es) =
    some (record { direction = direction; stream_offset = event_offset e })

numbered-append :
    (n : ℕ) (xs ys : List Event)
    → numbered n (xs ++ ys) ≡ numbered n xs ++ numbered (n + length xs) ys
numbered-append n [] ys = ap (λ k. numbered k ys) (omega arith)
numbered-append n ((d, e) ∷ xs) ys =
    ap (λ l. message_from n d e ∷ l)
      (numbered-append (suc n) xs ys ∙ ap (λ k. numbered (suc n) xs ++ numbered k ys) (omega arith))

pub length-numbered : (n : ℕ) (es : List Event) → length (numbered n es) ≡ length es
length-numbered n [] = refl
length-numbered n (e ∷ es) = ap suc (length-numbered (suc n) es)

-- What is collected from the events `seen`.
pub record Collects (max_messages : ℕ) (seen : List Event) (m : Messages) : Type 0 where
  pub collected : m.messages ≡ numbered 1 (take max_messages seen)
  pub limit : m.limit_issue ≡ first_omitted (drop max_messages seen)

first_omitted-append :
    (es : List Event) (d : Direction) (e : StreamEvent)
    → note_message_limit d e (first_omitted es) ≡ first_omitted (es ++ ((d, e) ∷ []))
unfolding note_message_limit
first_omitted-append [] d e = refl
first_omitted-append (x ∷ es) d e = refl

-- An event beyond the limit is only noted.
full-Collects :
    (most : ℕ) (seen : List Event) (d : Direction) (e : StreamEvent) (m : Messages)
    → Collects most seen m
    → most ≤ length seen
    → Collects most
        (seen ++ ((d, e) ∷ []))
        (record m { limit_issue = note_message_limit d e m.limit_issue })
full-Collects most seen d e m c full = record {
  collected = c.collected ∙ ap (numbered 1) (sym (take-append most seen ((d, e) ∷ []) full));
  limit =
      ap (note_message_limit d e) c.limit
      ∙ first_omitted-append (drop most seen) d e
      ∙ ap first_omitted (sym (drop-append most seen ((d, e) ∷ []) full));
}

-- One within the limit becomes the next message.
room-Collects :
    (most : ℕ) (seen : List Event) (d : Direction) (e : StreamEvent) (m : Messages)
    → Collects most seen m
    → length seen < most
    → Collects most
        (seen ++ ((d, e) ∷ []))
        (record m { messages = m.messages ++ (message_from (length m.messages + 1) d e ∷ []) })
room-Collects most seen d e m c room =
    let more = seen ++ ((d, e) ∷ []) in
    let size = length-append seen ((d, e) ∷ []) in
    let all = c.collected ∙ ap (numbered 1) (take_all most seen (omega arith)) in
    let count = ap length all ∙ length-numbered 1 seen in
    record {
      collected =
          (λ i. all i ++ (message_from (count i + 1) d e ∷ []))
          ∙ ap (λ k. numbered 1 seen ++ (message_from k d e ∷ [])) {x = length seen + 1}
              {y = 1 + length seen} (omega arith)
          ∙ sym (numbered-append 1 seen ((d, e) ∷ []))
          ∙ ap (numbered 1) (sym (take_all most more (omega (arith, size))));
      limit =
          c.limit
          ∙ ap first_omitted (drop_all most seen (omega arith))
          ∙ ap first_omitted (sym (drop_all most more (omega (arith, size))));
    }

add_messages-Collects :
    (most : ℕ) (d : Direction) (es : List StreamEvent) (seen : List Event) (m : Messages)
    → Collects most seen m
    → Collects most (seen ++ toward d es) (add_messages most d es m)
unfolding add_messages
add_messages-Collects most d [] seen m c = subst (λ l. Collects most l m) (sym (append-nil seen)) c
add_messages-Collects most d (e ∷ es) seen m c =
    let kept = ap length c.collected ∙ length-numbered 1 (take most seen) ∙ length-take most seen in
    let next =
      if-cases (Collects most (seen ++ ((d, e) ∷ []))) (leb most (length m.messages))
        (λ full. full-Collects most seen d e m c (ground (arith, full, kept)))
        (λ room. room-Collects most seen d e m c (ground (arith, room, kept))) in
    subst (λ l. Collects most l (add_messages most d (e ∷ es) m))
      (append_assoc seen ((d, e) ∷ []) (toward d es))
      (add_messages-Collects most d es (seen ++ ((d, e) ∷ [])) _ next)

-- The messages are those of the first `max_messages` events, requests before responses, numbered from
-- 1; and if there are more events, the issue of the limit names the first that is left out.
pub messages_of-Collects :
    (max_messages : ℕ) (requests responses : List StreamEvent)
    → Collects max_messages
        (toward request requests ++ toward response responses)
        (messages_of max_messages requests responses)
unfolding messages_of
messages_of-Collects max_messages requests responses =
    add_messages-Collects max_messages response responses (toward request requests) _ (
      add_messages-Collects max_messages request requests [] _ (record {
        collected = ap (numbered 1) (sym (take-nil max_messages));
        limit = ap first_omitted (sym (drop-nil max_messages));
      }))
