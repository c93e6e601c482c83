-- ===== src/Room/Validation.antt =====
-- packages/room-core/src/validation.ts: the tests of identifiers and players, and the look-ups in a
-- room's members and seats.
use tetr_d.Base.{
  ℕ, suc, Bool, true, false, not, ◌&&◌, ◌||◌, Option, none, some, List, [], ◌∷◌, length, all, any,
  count_if, ltb, leb, ◌==◌, if◌then◌else◌,
}
use tetr_d.Base.Texts.{Text, same_text, includes_text}
use tetr_d.Board.{max_safe_integer}
use tetr_d.Room.{
  Pair, SeatIndex, seat0, seat1, RoomPolicy, PublicRoomPlayer, RoomConnection, online, offline,
  RoomMember, Members, RoomState,
}

abbrev pub between : ℕ → ℕ → ℕ → Bool
between low high c = leb low c && leb c high

-- `[A-Za-z0-9_.:-]`
abbrev is_id_character : ℕ → Bool
is_id_character c =
    between 65 90 c
    || between 97 122 c
    || between 48 57 c
    || (c == 95)
    || (c == 46)
    || (c == 58)
    || (c == 45)

-- `__proto__`, `prototype` and `constructor`.
abbrev reserved_ids : List Text
reserved_ids =
    (95 ∷ 95 ∷ 112 ∷ 114 ∷ 111 ∷ 116 ∷ 111 ∷ 95 ∷ 95 ∷ [])
    ∷ (112 ∷ 114 ∷ 111 ∷ 116 ∷ 111 ∷ 116 ∷ 121 ∷ 112 ∷ 101 ∷ [])
    ∷ (99 ∷ 111 ∷ 110 ∷ 115 ∷ 116 ∷ 114 ∷ 117 ∷ 99 ∷ 116 ∷ 111 ∷ 114 ∷ [])
    ∷ []

-- `SAFE_ID.test(id)`
unfoldable pub safe_id : Text → Bool
safe_id id =
    not (includes_text reserved_ids id)
    && ltb 0 (length id)
    && leb (length id) 128
    && all is_id_character id

-- `ROOM_CODE.test(code)`: letters but I, L and O, and digits but 0 and 1.
unfoldable pub room_code_test : Text → Bool
room_code_test code =
    (length code == 6)
    && all (λ c. between 50 57 c || (between 65 90 c && not ((c == 73) || (c == 76) || (c == 79))))
        code

-- A character that `trim` takes off.
abbrev is_space : ℕ → Bool
is_space c =
    between 9 13 c
    || (c == 32)
    || (c == 160)
    || (c == 5760)
    || between 8192 8202 c
    || (c == 8232)
    || (c == 8233)
    || (c == 8239)
    || (c == 8287)
    || (c == 12288)
    || (c == 65279)

abbrev is_low_surrogate : ℕ → Bool
is_low_surrogate = between 56320 57343

-- `[...text].length`: a surrogate pair is one character.
unfoldable pub character_count : Text → ℕ
character_count [] = 0
character_count (c ∷ []) = 1
character_count (c ∷ d ∷ rest) =
    let after = character_count (d ∷ rest) in
    if between 55296 56319 c && is_low_surrogate d then after else suc after

-- The last entry, or the one given.
abbrev last_or : ℕ → Text → ℕ
last_or d [] = d
last_or d (c ∷ rest) = last_or c rest

-- `text.trim() === text`
abbrev is_trimmed : Text → Bool
is_trimmed [] = true
is_trimmed (c ∷ rest) = not (is_space c) && not (is_space (last_or c rest))

-- `CONTROL_CHARACTER.test(text)`
abbrev has_control_character : Text → Bool
has_control_character = any (λ c. leb c 31 || (c == 127))

unfoldable pub is_valid_player : PublicRoomPlayer → Bool
unfolding character_count
is_valid_player player =
    let name_length = character_count player.display_name in
    safe_id player.player_id
    && leb 1 name_length
    && leb name_length 24
    && is_trimmed player.display_name
    && not (has_control_character player.display_name)

abbrev pub is_safe_time : ℕ → Bool
is_safe_time value = leb value max_safe_integer

abbrev pub is_target_wins : ℕ → Bool
is_target_wins n = (n == 1) || (n == 2) || (n == 3) || (n == 5)

abbrev is_positive : ℕ → Bool
is_positive n = is_safe_time n && ltb 0 n

unfoldable pub is_valid_policy : RoomPolicy → Bool
is_valid_policy p =
    is_positive p.countdown_ms
    && is_safe_time p.max_spectators
    && is_positive p.match_reconnect_grace_ms
    && is_positive p.lobby_reconnect_grace_ms
    && is_positive p.empty_ttl_ms
    && is_positive p.lobby_idle_ttl_ms
    && is_positive p.series_complete_ttl_ms
    && is_positive p.absolute_ttl_ms

unfoldable pub own_member : Members → Text → Option RoomMember
own_member [] key = none
own_member ((k, m) ∷ rest) key =
    let later = own_member rest key in if same_text k key then some m else later

abbrev pub is_some {ℓ} : {A : Type ℓ} → Option A → Bool
is_some none = false
is_some (some a) = true

-- `hasOwn(members, playerId)`
abbrev pub has_member : Members → Text → Bool
has_member members key = is_some (own_member members key)

abbrev pub is_online : RoomConnection → Bool
is_online (online id epoch) = true
is_online (offline epoch deadline requested) = false

-- `connected`, which takes a member or `undefined`.
abbrev pub connected : Option RoomMember → Bool
connected none = false
connected (some m) = is_online m.connection

-- `id === playerId` where the first may be `null`.
abbrev pub is_id : Option Text → Text → Bool
is_id none key = false
is_id (some id) key = same_text id key

abbrev pub at_seat {ℓ} : {A : Type ℓ} → Pair A → SeatIndex → A
at_seat p seat0 = p.left
at_seat p seat1 = p.right

abbrev pub with_seat {ℓ} : {A : Type ℓ} → Pair A → SeatIndex → A → Pair A
with_seat p seat0 a = record p { left = a }
with_seat p seat1 a = record p { right = a }

abbrev pub seat_among : Pair (Option Text) → Text → Option SeatIndex
seat_among seats key =
    if is_id seats.left key then some seat0 else if is_id seats.right key then some seat1 else none

abbrev pub seat_of : RoomState → Text → Option SeatIndex
seat_of s key = seat_among s.seats key

abbrev pub roster_among : Option Text → Option Text → Option (Pair Text)
roster_among (some a) (some b) = some (record { left = a; right = b })
roster_among none b = none
roster_among (some a) none = none

abbrev pub roster_of : RoomState → Option (Pair Text)
roster_of s = roster_among s.seats.left s.seats.right

unfoldable pub spectator_count : RoomState → ℕ
spectator_count s = count_if (λ e. not (is_some (seat_of s e.0))) s.members

-- `{ ...members, [playerId]: member }`
unfoldable pub set_member : Members → Text → RoomMember → Members
set_member [] key member = (key, member) ∷ []
set_member ((k, m) ∷ rest) key member =
    let later = set_member rest key member in
    if same_text k key then (k, member) ∷ rest else (k, m) ∷ later

-- `delete next[playerId]`
unfoldable pub without_member : Members → Text → Members
without_member [] key = []
without_member ((k, m) ∷ rest) key =
    let later = without_member rest key in if same_text k key then later else (k, m) ∷ later

-- The order of `candidates.sort(...)` on connected members: seated first, then by the time of
-- joining.
abbrev pub comes_first : RoomState → RoomMember → RoomMember → Bool
comes_first s a b =
    let seated_a = is_some (seat_of s a.player.player_id) in
    let seated_b = is_some (seat_of s b.player.player_id) in
    if seated_a && not seated_b
    then true
    else if seated_b && not seated_a
    then false
    else leb a.joined_ordinal b.joined_ordinal

-- The first of the sorted candidates: among the entries, the one that comes before all others.
unfoldable pub first_candidate : RoomState → Members → Option RoomMember
first_candidate s [] = none
first_candidate s ((k, m) ∷ rest) =
    let later = first_candidate s rest in
    if not (is_online m.connection) then later else elim later [
      | none ↦ some m
      | some other ↦ if comes_first s m other then some m else some other
    ]

unfoldable pub choose_host : RoomState → Option Text
unfolding first_candidate
choose_host s = elim (first_candidate s s.members) [
  | none ↦ none
  | some m ↦ some m.player.player_id
]
