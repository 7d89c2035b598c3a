-- ===== src/Protocol/Multi/Split.antt =====
-- The loop of `handleMulti` (protocol/handlers.go) against the messages that it was packed from.
use go_steam.Base.{
  ℕ, zero, suc, ◌+◌, ◌%◌, ◌^◌, ◌≤◌, ◌<◌, true, false, ◌⊎◌, inl, inr, Option, some, [], ◌∷◌, ◌++◌,
  List, ◌≡◌, ◌≢◌, refl, ap, ◌∙◌, sym, Bytes, length, length-append, All, ltb, ◌==◌, arith,
  Bool-cases,
}
use go_steam.Base.Binary.{
  ReadError, eof, unexpected_eof, le_bytes, read_le, read_full, length-le_bytes, read_le-le_bytes,
  read_full-append, read_full_split,
}
use go_steam.Base.Results.{Result, ok, err, bind_inv}
use go_steam.Protocol.State.{Protocol, ProtocolError, M, and_then, ◌>>◌, pure, lift}
use go_steam.Protocol.Handlers.{MultiBody, Outside}
use go_steam.Protocol.Multi.{
  check_size, read_sub_data, sub_message, sub_messages, check_unzipped, unzipped, handle_multi,
}

-- Messages in one packet: each behind its length.
abbrev pub pack : List Bytes → Bytes
pack [] = []
pack (m ∷ ms) = le_bytes 4 (length m) ++ (m ++ pack ms)

-- One message after the other, up to the first that fails.
abbrev pub for_each : {C : Type 0} → (Bytes → M C (Unit {0})) → List Bytes → M C (Unit {0})
for_each next [] = pure tt
for_each next (m ∷ ms) = next m >> for_each next ms

-- A message has at least its number.
abbrev pub HasNumber : Bytes → Type 0
HasNumber m = 4 ≤ length m

sub_message-append :
    (m rest : Bytes)
    → 4 ≤ length m
    → length m + length rest < 2 ^ 32
    → sub_message (le_bytes 4 (length m) ++ (m ++ rest)) ≡ ok (m, rest)
unfolding sub_message check_size read_sub_data
sub_message-append m rest four fits =
    let large : ltb (length m) 4 ≡ false = ground arith in
    let whole : ltb (length (m ++ rest) % 2 ^ 32) (length m) ≡ false =
      ground (arith, length-append m rest) in
    rw (
      read_le-le_bytes 4 (length m) (m ++ rest) (omega arith),
      large,
      whole,
      read_full-append (length m) m rest refl,
    )

pub length-packed :
    (m rest : Bytes) → length (le_bytes 4 (length m) ++ (m ++ rest)) ≡ 4 + (length m + length rest)
length-packed m rest = omega (
  arith,
  length-append (le_bytes 4 (length m)) (m ++ rest),
  length-append m rest,
  length-le_bytes 4 (length m),
)

and_then-cong :
    {C A B : Type 0} (r : Result ProtocolError A × Protocol C) (f g : A → M C B)
    → ((a : A) (h : Protocol C) → f a h ≡ g a h)
    → and_then r f ≡ and_then r g
unfolding and_then
and_then-cong (ok a, h) f g same = same a h
and_then-cong (err e, h) f g same = refl

lift-cong :
    {C A B : Type 0} (r : Result ProtocolError A) (f g : A → M C B) (h : Protocol C)
    → ((a : A) (h' : Protocol C) → r ≡ ok a → f a h' ≡ g a h')
    → and_then (lift r h) f ≡ and_then (lift r h) g
unfolding and_then
lift-cong (ok a) f g h same = same a h refl
lift-cong (err e) f g h same = refl

length_full : (r : Bytes) → r ≢ [] → 0 < length r
length_full [] full = absurd (full refl)
length_full (b ∷ r) full = omega arith

length-pack_full : (ms : List Bytes) → ms ≢ [] → 0 < length (pack ms)
length-pack_full [] full = absurd (full refl)
length-pack_full (m ∷ ms) full = omega (arith, length-packed m (pack ms))

unzipped-pack :
    (gunzip : Bytes → Option Bytes) (multi : MultiBody) (ms : List Bytes)
    → (multi.size_unzipped ≡ 0) × (multi.message_body ≡ pack ms)
      ⊎ (multi.size_unzipped ≡ length (pack ms)) × (gunzip multi.message_body ≡ some (pack ms))
    → ms ≢ []
    → length (pack ms) < 2 ^ 32
    → unzipped gunzip multi ≡ ok (pack ms)
unfolding unzipped check_unzipped
unzipped-pack gunzip multi ms (inl (zero_, body)) full fits = rw (zero_, body)
unzipped-pack gunzip multi ms (inr (size, opened)) full fits =
    let some_size : (length (pack ms) == 0) ≡ false = ground (arith, length-pack_full ms full) in
    let same : (length (pack ms) % 2 ^ 32 == length (pack ms)) ≡ true = ground arith in
    rw (size, some_size, opened, same)

-- A size that passes was read, and stands before it, or nothing was there.
check_size_inv :
    (read : Result ReadError (ℕ × Bytes)) (size : ℕ) (rest : Bytes)
    → check_size read ≡ ok (size, rest)
    → (read ≡ ok (size, rest)) ⊎ ((read ≡ err eof) × (rest ≡ []) × (size ≡ 0))
unfolding check_size
check_size_inv (err eof) size rest h = inr (refl, ground arith, ground arith)
check_size_inv (err unexpected_eof) size rest h = cc
check_size_inv (ok (n, left)) size rest h = inl (ground arith)

read_sub_data_inv :
    (read : Result ProtocolError (ℕ × Bytes)) (m rest : Bytes)
    → read_sub_data read ≡ ok (m, rest)
    → (size : ℕ) × (left : Bytes) × (read ≡ ok (size, left)) × (length rest ≤ length left)
unfolding read_sub_data
read_sub_data_inv (err e) m rest h = cc
read_sub_data_inv (ok (size, left)) m rest h =
    (size, left, refl, ground (arith, read_full_split size left m rest, length-append m rest))

read_le_shorter : (r rest : Bytes) (v : ℕ) → read_le 4 r ≡ ok (v, rest) → length rest < length r
unfolding read_le
read_le_shorter r rest v h =
    let ((bs, left), got, done) = bind_inv (read_full 4 r) _ h in
    let (whole, four) = read_full_split 4 r bs left got in
    let same : left ≡ rest = cc in
    omega (arith, ap length whole, length-append bs left, ap length same)

-- What follows a sub-message is shorter.
sub_message_shorter :
    (r m rest : Bytes) → 0 < length r → sub_message r ≡ ok (m, rest) → length rest < length r
unfolding sub_message
sub_message_shorter r m rest some_ h =
    let (size, left, got, short) = read_sub_data_inv (check_size (read_le 4 r)) m rest h in
    elim (check_size_inv (read_le 4 r) size left got) [
      | inl read ↦ omega (arith, short, read_le_shorter r left size read)
      | inr (_, none_left, _) ↦ omega (arith, short, ap length none_left)
    ]

module _ {C : Type 0} (next : Bytes → M C (Unit {0})) where
  sub_messages-pack :
      (n : ℕ) (ms : List Bytes) (h : Protocol C)
      → All HasNumber ms
      → length (pack ms) < 2 ^ 32
      → length (pack ms) ≤ n
      → sub_messages next n (pack ms) h ≡ for_each next ms h
  unfolding sub_messages and_then
  sub_messages-pack zero [] h _ _ _ = refl
  sub_messages-pack (suc n) [] h _ _ _ = refl
  sub_messages-pack zero (m ∷ ms) h _ _ few = absurd (omega (arith, length-packed m (pack ms)))
  sub_messages-pack (suc n) (m ∷ ms) h (four, numbers) fits few =
      let long = length-packed m (pack ms) in
      let left : (length (pack (m ∷ ms)) == 0) ≡ false = ground (arith, long) in
      rw (left, sub_message-append m (pack ms) four (omega (arith, long)))
        (and_then-cong (next m h) _ _
          (λ _ h'. sub_messages-pack n ms h' numbers (omega (arith, long)) (omega (arith, long))))

  sub_messages_enough :
      (n : ℕ) (r : Bytes) (h : Protocol C)
      → length r ≤ n
      → sub_messages next n r h ≡ sub_messages next (suc n) r h
  unfolding sub_messages and_then
  sub_messages_enough zero r h few =
      let none_left : (length r == 0) ≡ true = ground arith in rw none_left
  sub_messages_enough (suc n) r h few = elim (Bool-cases (length r == 0)) [
    | inl none_left ↦ rw none_left
    | inr left ↦ rw left (
        lift-cong (sub_message r) _ _ h (λ p h' e. and_then-cong (next p.0 h') _ _ (λ _ h''.
          sub_messages_enough n p.1 h''
            (omega (arith, sub_message_shorter r p.0 p.1 (ground arith) e)))))
  ]

  -- The loop over the sub-messages ends within a round for each byte: more rounds change nothing.
  pub sub_messages_rounds :
      (k : ℕ) (r : Bytes) (h : Protocol C)
      → sub_messages next (k + length r) r h ≡ sub_messages next (length r) r h
  sub_messages_rounds zero r h = let same : 0 + length r ≡ length r = omega arith in rw same refl
  sub_messages_rounds (suc k) r h =
      let same : suc k + length r ≡ suc (k + length r) = omega arith in
      rw same refl
      ∙ sym (sub_messages_enough (k + length r) r h (omega arith))
      ∙ sub_messages_rounds k r h

  -- A Multi that unmarshals to packed messages, each with a number, as it is or compressed, with
  -- their size in the second case, is handled by handling each message in turn, if there is one
  -- and they take less than 4 GiB.
  pub handle_multi-pack :
      (out : Outside C) (body : Bytes) (multi : MultiBody) (ms : List Bytes) (h : Protocol C)
      → out.unmarshal_multi body ≡ some multi
      → (multi.size_unzipped ≡ 0) × (multi.message_body ≡ pack ms)
        ⊎ (multi.size_unzipped ≡ length (pack ms))
          × (out.gunzip multi.message_body ≡ some (pack ms))
      → multi.message_body ≢ []
      → ms ≢ []
      → All HasNumber ms
      → length (pack ms) < 2 ^ 32
      → handle_multi next out body h ≡ for_each next ms h
  unfolding handle_multi and_then
  handle_multi-pack out body multi ms h unmarshalled form full some_ numbers fits =
      let unzipped_ = unzipped-pack out.gunzip multi ms form some_ fits in
      let left : (length multi.message_body == 0) ≡ false =
        ground (arith, length_full multi.message_body full) in
      rw (unmarshalled, left, unzipped_)
        (sub_messages-pack (length (pack ms)) ms h numbers fits (omega arith))
