-- ===== src/SteamId/Steam3.antt =====
-- steamid/steamid_3.go: the format [T:U:N].
pub mod Bounds
use go_steam.Base.{
  ℕ, ◌-◌, ◌^◌, ◌≤◌, ◌<◌, true, false, ◌&&◌, some, none, [], ◌∷◌, ◌++◌, ◌≡◌, ◌≢◌, ◌⊎◌, refl, ap,
  Bytes, leb, ◌==◌, if◌then◌else◌, arith, ◌∙◌, inl, inr, Bool-cases,
}
use go_steam.Base.Results.{Result, ok, err, or_err, ◌>>=◌}
use go_steam.Base.Decimal.{
  parse_uint, format_uint, parse_uint-format_uint_fits, format_uint-IsDigit, length-format_uint,
}
use go_steam.SteamId.{
  SteamId, IsU64, account_id, account_instance, account_type, account_universe, new_steam_id,
  type_invalid, type_individual, type_anon_game_server, type_content_server, type_clan, type_chat,
  universe_public,
}
use go_steam.SteamId.Fields.{account_id-eq, account_type-eq, account_universe-eq}
use go_steam.SteamId.Laws.{new_steam_id-HasFields, new_steam_id_of_fields}
use go_steam.SteamId.Errors.{ParseError, steam3_format, steam3_universe, steam3_number}
use go_steam.SteamId.Patterns
use go_steam.SteamId.Patterns.{
  is_steam3_letter, steam3_submatch, span_digits-append, non_empty-eq-true,
}

-- `strings.ToUpper` on one rune, as far as the result is an ASCII letter.
to_upper : ℕ → ℕ
to_upper c =
    if leb b'a' c && leb c b'z'
    then c - 32
    else if c == 0x131
    then b'I'
    else if c == 0x17f
    then b'S'
    else c

letter_of_account_type : ℕ → ℕ
letter_of_account_type t =
    if t == type_individual
    then b'U'
    else if t == type_clan
    then b'G'
    else if t == type_anon_game_server
    then b'A'
    else if t == type_content_server
    then b'C'
    else if t == type_chat
    then b'T'
    else if t == type_invalid
    then b'I'
    else b'U'

account_type_of_upper : ℕ → ℕ
account_type_of_upper c =
    if c == b'U'
    then type_individual
    else if c == b'G'
    then type_clan
    else if c == b'A'
    then type_anon_game_server
    else if c == b'C'
    then type_content_server
    else if c == b'T'
    then type_chat
    else if c == b'I'
    then type_invalid
    else type_individual

-- A text of any other length than one is no letter.
account_type_of_letter : Bytes → ℕ
account_type_of_letter (c ∷ []) = account_type_of_upper (to_upper c)
account_type_of_letter _ = type_individual

pub default_instance_for_account_type : ℕ → ℕ
default_instance_for_account_type t = if t == type_clan then 0 else 1

-- `NewSteamID` is called with the universe in the place of the type, and the type in the place of
-- the universe, as in the source.
pub from_steam3 : Bytes → Result ParseError SteamId
from_steam3 input = do
  m ← or_err (steam3_submatch input) steam3_format
  let t = account_type_of_letter m.letter
  universe ← or_err (parse_uint 8 m.universe) steam3_universe
  id ← or_err (parse_uint 32 m.number) steam3_number
  ok (new_steam_id id (default_instance_for_account_type t) universe t)

-- [L:U:N] from its letter and its two numbers.
steam3_text : ℕ → ℕ → ℕ → Bytes
steam3_text letter universe number =
    b'[' ∷ letter ∷ b':' ∷ (format_uint universe ++ b':' ∷ (format_uint number ++ b']' ∷ []))

pub to_steam3 : SteamId → Bytes
to_steam3 sid =
    steam3_text (letter_of_account_type (account_type sid)) (account_universe sid) (account_id sid)

steam3_number_text :
    (letter universe : Bytes) (n : ℕ)
    → Patterns.steam3_number letter universe (format_uint n ++ b']' ∷ [])
      ≡ some (record { letter = letter; universe = universe; number = format_uint n })
steam3_number_text letter universe n =
    unfold Patterns.steam3_number in
    rw (
      span_digits-append (format_uint n) b']' [] (format_uint-IsDigit n) refl,
      non_empty-eq-true (format_uint n) (length-format_uint n).0,
    )

steam3_universe_text :
    (letter rest : Bytes) (u : ℕ)
    → Patterns.steam3_universe letter (b':' ∷ (format_uint u ++ b':' ∷ rest))
      ≡ Patterns.steam3_number letter (format_uint u) rest
steam3_universe_text letter rest u =
    let run = span_digits-append (format_uint u) b':' rest (format_uint-IsDigit u) refl in
    unfold Patterns.steam3_universe in
    rw (run, non_empty-eq-true (format_uint u) (length-format_uint u).0)

-- A printed text matches if its letter is one of the class, and not if it is the chat's.
steam3_submatch_text :
    (c u n : ℕ)
    → is_steam3_letter c ≡ true
    → steam3_submatch (steam3_text c u n)
      ≡ some (record { letter = c ∷ []; universe = format_uint u; number = format_uint n })
unfolding steam3_text
steam3_submatch_text c u n letter =
    let tail = steam3_universe_text (c ∷ []) (format_uint n ++ b']' ∷ []) u in
    let whole = tail ∙ steam3_number_text (c ∷ []) (format_uint u) n in enters ∙ whole
  where
    enters :
        steam3_submatch (steam3_text c u n)
        ≡ Patterns.steam3_universe
            (c ∷ [])
            (b':' ∷ (format_uint u ++ b':' ∷ (format_uint n ++ b']' ∷ [])))
    enters = unfold steam3_submatch Patterns.steam3_letter in rw letter

steam3_submatch_chat : (u n : ℕ) → steam3_submatch (steam3_text b'T' u n) ≡ none
unfolding steam3_text steam3_submatch
steam3_submatch_chat u n = refl

chat_letter : letter_of_account_type type_chat ≡ b'T'
unfolding letter_of_account_type
chat_letter = refl

-- The account type that a printed type is read as.
pub read_type : ℕ → ℕ
read_type t = account_type_of_letter (letter_of_account_type t ∷ [])

letter_class : (t : ℕ) → t ≢ type_chat → is_steam3_letter (letter_of_account_type t) ≡ true
unfolding letter_of_account_type
letter_class t h = ground arith

-- Reading back what `ToSteam3` printed: an error for a chat; else the account id is kept, the
-- universe becomes the account type, the type that the letter stands for becomes the universe, and
-- the instance is the default one of that type.
pub from_steam3-to_steam3 :
    (sid : SteamId)
    → IsU64 sid
    → from_steam3 (to_steam3 sid) ≡ (
        if account_type sid == type_chat
        then err steam3_format
        else ok (
            new_steam_id
              (account_id sid)
              (default_instance_for_account_type (read_type (account_type sid)))
              (account_universe sid)
              (read_type (account_type sid))))
unfolding from_steam3 to_steam3 read_type
from_steam3-to_steam3 sid h = elim (Bool-cases (account_type sid == type_chat)) [
  | inl chat ↦
      let e : account_type sid ≡ type_chat = ground arith in
      rw (e, chat_letter, steam3_submatch_chat (account_universe sid) (account_id sid))
  | inr other ↦ rw (
    steam3_submatch_text (letter_of_account_type (account_type sid)) (account_universe sid)
        (account_id sid) (letter_class (account_type sid) (ground arith)),
    parse_uint-format_uint_fits 8 (account_universe sid) (omega (arith, account_universe-eq sid))
        (omega (arith, account_universe-eq sid)),
    parse_uint-format_uint_fits 32 (account_id sid) (omega (arith, account_id-eq sid))
        (omega (arith, account_id-eq sid)),
    other,
  )
]

-- The account types that have a letter of their own which `FromSteam3` reads.
abbrev pub HasLetter : ℕ → Type 0
HasLetter t =
    (t ≡ type_invalid)
    ⊎ (t ≡ type_individual)
    ⊎ (t ≡ type_anon_game_server)
    ⊎ (t ≡ type_content_server)
    ⊎ (t ≡ type_clan)

read_type_same : (t : ℕ) → HasLetter t → read_type t ≡ t
unfolding read_type account_type_of_letter letter_of_account_type account_type_of_upper to_upper
read_type_same t h = ground arith

-- A SteamID whose type has a letter is read back from its Steam3 print with its account id, the
-- default instance of its type, and its type and its universe in each other's place.
pub from_steam3-to_steam3_swapped :
    (sid : SteamId)
    → IsU64 sid
    → HasLetter (account_type sid)
    → (r : SteamId) × (from_steam3 (to_steam3 sid) ≡ ok r)
      × (account_id r ≡ account_id sid)
      × (account_instance r ≡ default_instance_for_account_type (account_type sid))
      × (account_type r ≡ account_universe sid)
      × (account_universe r ≡ account_type sid)
from_steam3-to_steam3_swapped sid h letter =
    let other : (account_type sid == type_chat) ≡ false = ground arith in
    let t = account_type sid in
    let read : from_steam3 (to_steam3 sid)
        ≡ ok (
            new_steam_id (account_id sid) (default_instance_for_account_type t)
              (account_universe sid) t) =
      from_steam3-to_steam3 sid h ∙ rw (other, read_type_same t letter) in
    let built =
      new_steam_id-HasFields (account_id sid) (default_instance_for_account_type t)
        (account_universe sid) t in
    (
      new_steam_id (account_id sid) (default_instance_for_account_type t) (account_universe sid) t,
      read,
      omega (arith, account_id-eq sid, built.id_eq),
      omega (arith, built.instance_eq, default_instance_small t),
      omega (arith, account_universe-eq sid, built.type_eq),
      omega (arith, account_type-eq sid, built.universe_eq),
    )
  where
    default_instance_small : (u : ℕ) → default_instance_for_account_type u ≤ 1
    default_instance_small u = unfold default_instance_for_account_type in ground arith

-- A public individual account with instance 1 and no unused bits is read back from its Steam3 print.
from_steam3-to_steam3_public :
    (sid : SteamId)
    → sid < 2 ^ 60
    → account_universe sid ≡ universe_public
    → account_type sid ≡ type_individual
    → account_instance sid ≡ 1
    → from_steam3 (to_steam3 sid) ≡ ok sid
from_steam3-to_steam3_public sid h universe type_ instance_ =
    let built = new_steam_id_of_fields sid h in
    let default_ : default_instance_for_account_type 1 ≡ 1 =
      unfold default_instance_for_account_type in refl in
    from_steam3-to_steam3 sid (omega arith)
    ∙ rw (type_, universe, read_type_same 1 (inr (inl refl)), default_)
        (ap ok (rw (universe, type_, instance_) at built))
