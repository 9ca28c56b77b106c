-- ===== src/Gateway/Laws.antt =====
-- What reaches the channel of intents.
use ma_secure.Base.{
  ℕ, zero, suc, ◌≤◌, String, Option, some, true, false, ◌≡◌, ◌⊎◌, inl, inr, refl, sym, ap, ◌∙◌,
  List, [], ◌∷◌, ◌++◌, map, take, length, length-append, Bool-cases, Option-cases, ltb, arith,
}
use ma_secure.Gateway.{
  UserIntent, Message, Channel, Webhook, parse_intent, send, route, verify_signature,
  parse_and_route, handle_event,
}

take-append_full :
    {A : Type 0} (xs ys : List A) (n : ℕ) → n ≤ length xs → take n (xs ++ ys) ≡ take n xs
unfolding take
take-append_full [] ys zero h = refl
take-append_full [] ys (suc n) h = absurd (ground arith)
take-append_full (x ∷ xs) ys zero h = refl
take-append_full (x ∷ xs) ys (suc n) h = ap (λ l. x ∷ l) (take-append_full xs ys n (ground arith))

take_all : {A : Type 0} (xs : List A) (n : ℕ) → length xs ≤ n → take n xs ≡ xs
unfolding take
take_all [] zero h = refl
take_all [] (suc n) h = refl
take_all (x ∷ xs) zero h = absurd (ground arith)
take_all (x ∷ xs) (suc n) h = ap (λ l. x ∷ l) (take_all xs n (ground arith))

append_one : {A : Type 0} (xs : List A) (x : A) (zs : List A) → (xs ++ x ∷ []) ++ zs ≡ xs ++ x ∷ zs
append_one [] x zs = refl
append_one (y ∷ xs) x zs = ap (λ l. y ∷ l) (append_one xs x zs)

append_nil : {A : Type 0} (xs : List A) → xs ++ [] ≡ xs
append_nil [] = refl
append_nil (x ∷ xs) = ap (λ l. x ∷ l) (append_nil xs)

one_more :
    (ch : Channel) (i : UserIntent)
    → ltb (length ch.queue) ch.capacity ≡ true
    → length (ch.queue ++ i ∷ []) ≤ ch.capacity
one_more ch i room = ground (arith, length-append ch.queue (i ∷ []))

no_room : (ch : Channel) → ltb (length ch.queue) ch.capacity ≡ false → ch.capacity ≤ length ch.queue
no_room ch full = ground arith

send_room :
    (ch : Channel) (i : UserIntent)
    → ltb (length ch.queue) ch.capacity ≡ true
    → send i ch ≡ record ch { queue = ch.queue ++ i ∷ [] }
unfolding send
send_room ch i room = rw room refl

send_full :
    (ch : Channel) (i : UserIntent) → ltb (length ch.queue) ch.capacity ≡ false → send i ch ≡ ch
unfolding send
send_full ch i full = rw full refl

-- Routed messages line up behind the intents that wait, in their order, and those beyond the
-- channel's capacity, and only those, are dropped.
pub route_lem :
    (ms : List Message) (ch : Channel)
    → length ch.queue ≤ ch.capacity
    → (route ms ch).queue ≡ take ch.capacity (ch.queue ++ map parse_intent ms)
unfolding route
route_lem [] ch h =
    sym (take_all ch.queue ch.capacity h) ∙ ap (take ch.capacity) (sym (append_nil ch.queue))
route_lem (m ∷ ms) ch h =
    let i = parse_intent m in
    elim (Bool-cases (ltb (length ch.queue) ch.capacity)) [
      | inl room ↦
          ap (λ c. (route ms c).queue) (send_room ch i room)
          ∙ route_lem ms (record ch { queue = ch.queue ++ i ∷ [] }) (one_more ch i room)
          ∙ ap (take ch.capacity) (append_one ch.queue i (map parse_intent ms))
      | inr full ↦
          ap (λ c. (route ms c).queue) (send_full ch i full)
          ∙ route_lem ms ch h
          ∙ take-append_full ch.queue (map parse_intent ms) ch.capacity (no_room ch full)
          ∙ sym (take-append_full ch.queue (i ∷ map parse_intent ms) ch.capacity (no_room ch full))
    ]

module _ {B : Type 0} (mac : String → B → String) (messages : B → Option (List Message)) where
  routed :
      (body : B) (ch : Channel)
      → length ch.queue ≤ ch.capacity
      → (parse_and_route mac messages body ch ≡ ch)
        ⊎ ((ms : List Message) × (messages body ≡ some ms)
            × ((parse_and_route mac messages body ch).queue
                ≡ take ch.capacity (ch.queue ++ map parse_intent ms)))
  unfolding parse_and_route
  routed body ch h = elim (Option-cases (messages body)) [
    | inl e ↦ inl (ground (arith, e))
    | inr (ms, e) ↦ inr (ms, e, ground (arith, e, route_lem ms ch h))
  ]

  -- An event changes the channel only if its signature passes the check, which an empty secret turns
  -- off; and then it is answered 200 and the channel is what it held and the intents of the event's
  -- messages, in their order, up to its capacity.
  pub handle_event_lem :
      (secret : String) (r : Webhook B) (ch : Channel)
      → length ch.queue ≤ ch.capacity
      → ((handle_event mac messages secret r ch).1 ≡ ch)
        ⊎ ((body : B) × (ms : List Message) × (r.body ≡ some body)
            × (verify_signature mac messages secret r.signature body ≡ true)
            × (messages body ≡ some ms)
            × ((handle_event mac messages secret r ch).0 ≡ 200)
            × ((handle_event mac messages secret r ch).1.queue
                ≡ take ch.capacity (ch.queue ++ map parse_intent ms)))
  unfolding handle_event
  handle_event_lem secret r ch h = elim (Option-cases r.body) [
    | inl e ↦ inl (ground (arith, e))
    | inr (body, e) ↦ elim (Bool-cases (verify_signature mac messages secret r.signature body)) [
      | inr v ↦ inl (ground (arith, e, v))
      | inl v ↦ elim (routed body ch h) [
        | inl same ↦ inl (ground (arith, e, v, same))
        | inr (ms, d, lined) ↦
            inr (body, ms, e, v, d, ground (arith, e, v), ground (arith, e, v, lined))
      ]
    ]
  ]
