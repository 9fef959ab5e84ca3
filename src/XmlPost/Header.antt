-- ===== src/XmlPost/Header.antt =====
-- The header of a post, `_print_header`, and `xml_print_post`. A pointer is a position in the post.
use fbbs.Common.{
  ℕ, zero, suc, ◌+◌, ◌-◌, ◌*◌, ◌%◌, ◌^◌, Bool, true, false, ◌&&◌, ◌||◌, Option, none, some, List,
  [], ◌∷◌, ◌++◌, min, leb, ltb, ◌==◌, if◌then◌else◌, length, take, drop, get_elem?,
}
use fbbs.Common.Run.{Run, ok, fault, bad_access, ◌>>=◌}
use fbbs.XmlPost.{xml_escape, memstr, get_line_end}
use fbbs.XmlPost.Ansi.{plain_color, print_ansi_text}
use fbbs.XmlPost.Paragraph.{Options}
use fbbs.XmlPost.Body.{print_body}

-- `memchr` from a position up to another; one that begins behind its end reads on, out of the post.
unfoldable pub memchr_loop : (c : ℕ) → (at end : ℕ) → List ℕ → Run (Option ℕ)
memchr_loop c at end [] = if at == end then ok none else fault bad_access
memchr_loop c at end (x ∷ s) =
    if at == end
    then ok none
    else elim (x == c) [ true ↦ ok (some at) | false ↦ memchr_loop c (at + 1) end s ]

unfoldable pub memchr : (str : List ℕ) → (begin c end : ℕ) → Run (Option ℕ)
memchr str begin c end = memchr_loop c begin end (drop begin str)

-- `_memrchr`, from before `end` down to `begin`.
unfoldable pub memrchr : (str : List ℕ) → (begin c end : ℕ) → Option ℕ
memrchr str begin c zero = none
memrchr str begin c (suc p) =
    let before = memrchr str begin c p in
    if ltb p begin
    then none
    else elim (get_elem? str p) [ none ↦ before | some x ↦ if x == c then some p else before ]

-- The position behind the line that begins at a position.
unfoldable pub line_end : (str : List ℕ) → (begin : ℕ) → ℕ
line_end str begin = begin + length (get_line_end (drop begin str)).0

-- The bytes between two positions; a loop that begins behind its end runs out of the post.
unfoldable pub range : (str : List ℕ) → (begin end : ℕ) → Run (List ℕ)
range str begin end =
    if leb begin end && leb end (length str)
    then ok (take (end - begin) (drop begin str))
    else fault bad_access

-- `strtol`: blanks, a sign, and digits up to another byte, as an int of 32 bits.
unfoldable pub skip_blanks : List ℕ → List ℕ
skip_blanks [] = []
skip_blanks (c ∷ s) =
    let rest = skip_blanks s in if c == 32 || leb 9 c && leb c 13 then rest else c ∷ s

unfoldable pub to_int : (negative : Bool) → ℕ → ℕ
to_int true n = (2 ^ 64 - min n (2 ^ 63)) % 2 ^ 32
to_int false n = min n (2 ^ 63 - 1) % 2 ^ 32

unfoldable pub read_digits : (negative : Bool) → (sofar : ℕ) → List ℕ → Run ℕ
read_digits negative sofar [] = fault bad_access
read_digits negative sofar (d ∷ ds) =
    let rest = read_digits negative (10 * sofar + (d - 48)) ds in
    if leb 48 d && leb d 57 then rest else ok (to_int negative sofar)

unfoldable pub read_signed : List ℕ → Run ℕ
read_signed [] = fault bad_access
read_signed (c ∷ s) =
    if c == 45
    then read_digits true 0 s
    else if c == 43
    then read_digits false 0 s
    else read_digits false 0 (c ∷ s)

unfoldable pub strtol : List ℕ → Run ℕ
strtol s = read_signed (skip_blanks s)

-- The fields of `struct tm` that are set, as ints of 32 bits.
pub record Tm : Type 0 where
  pub year : ℕ
  pub mon : ℕ
  pub mday : ℕ
  pub hour : ℕ
  pub minute : ℕ
  pub sec : ℕ

-- What the C library and libiconv do: `mktime`, which fails as none; `format_time`, by `strftime`; and
-- the conversion of `_xml_escape`.
pub record Platform : Type 0 where
  pub mktime : Tm → Option ℕ
  pub format_time : ℕ → List ℕ
  pub convert : List ℕ → List ℕ

-- `sizeof(DATETIME_STRING)`
abbrev pub datetime_size : ℕ
datetime_size = 26

-- Two's complement of 32 bits.
abbrev pub minus : ℕ → ℕ → ℕ
minus a b = (a + 2 ^ 32 - b) % 2 ^ 32

abbrev pub or_zero : Option ℕ → ℕ
or_zero none = 0
or_zero (some n) = n

unfoldable pub read_date : (mktime : Tm → Option ℕ) → (str : List ℕ) → (s : ℕ) → Run ℕ
read_date mktime str s = do
  year ← strtol (drop s str)
  mon ← strtol (drop (s + 7) str)
  mday ← strtol (drop (s + 12) str)
  hour ← strtol (drop (s + 17) str)
  minute ← strtol (drop (s + 20) str)
  sec ← strtol (drop (s + 23) str)
  ok (
      or_zero (
        mktime (record {
          year = minus year 1900;
          mon = minus mon 1;
          mday = mday;
          hour = hour;
          minute = minute;
          sec = sec;
        })))

-- `_parse_header_date`
unfoldable pub parse_header_date :
    (mktime : Tm → Option ℕ) → (str : List ℕ) → (begin end : ℕ) → Run ℕ
parse_header_date mktime str begin end = do
  paren ← memchr str begin 40 end
  elim paren [
    | none ↦ ok 0
    | some p ↦ if ltb end (p + datetime_size) then ok 0 else read_date mktime str (p + 1)
  ]

-- SENDER_STRING
abbrev pub sender_string : List ℕ
sender_string = 0xe5 ∷ 0x8f ∷ 0x91 ∷ 0xe4 ∷ 0xbf ∷ 0xa1 ∷ 0xe4 ∷ 0xba ∷ 0xba ∷ 58 ∷ 32 ∷ []

-- `sizeof(TOPIC_STRING) - 1`
abbrev pub topic_size : ℕ
topic_size = 10

-- `_print_node`
unfoldable pub print_node : (convert : List ℕ → List ℕ) → (name value : List ℕ) → List ℕ
print_node convert name value =
    (60 ∷ name) ++ (62 ∷ xml_escape convert value) ++ (60 ∷ 47 ∷ name) ++ 62 ∷ []

-- The ends of `string_t`.
pub record Span : Type 0 where
  pub begin : ℕ
  pub end : ℕ

-- The variables of `_print_header` when nothing is printed yet.
pub record Fields : Type 0 where
  pub owner : Span
  pub nick : Span
  pub board : Span
  pub title : Span
  pub date : ℕ
  pub behind : ℕ

-- The second and third line. None is a return of `begin`.
unfoldable pub find_title :
    Platform → (str : List ℕ) → (owner nick board : Span) → (first_end : ℕ) → Run (Option Fields)
find_title platform str owner nick board first_end =
    let second_end = line_end str first_end in
    let third_end = line_end str second_end in
    if leb (length str) (first_end + topic_size) then ok none else (do
      date ← parse_header_date platform.mktime str second_end third_end
      ok (
          if date == 0
          then none
          else some (record {
            owner = owner;
            nick = nick;
            board = board;
            title = record { begin = first_end + topic_size; end = second_end - 1 };
            date = date;
            behind = third_end;
          })))

-- `board.begin` is NULL where there is no colon, and is read all the same.
unfoldable pub find_board :
    Platform → (str : List ℕ) → (owner nick : Span) → (first_end : ℕ) → Run (Option Fields)
find_board platform str owner nick first_end = do
  colon ← memchr str nick.end 58 first_end
  elim colon [
    | none ↦ fault bad_access
    | some p ↦ if leb (length str) (p + 2) then ok none else (do
      escape ← memchr str (p + 2) 27 first_end
      let board : ℕ = elim escape [ none ↦ first_end - 1 | some e ↦ e ]
      find_title platform str owner nick (record { begin = p + 2; end = board }) first_end)
  ]

unfoldable pub find_nick :
    Platform → (str : List ℕ) → (owner : Span) → (first_end : ℕ) → Run (Option Fields)
find_nick platform str owner first_end =
    let begin = owner.end + 2 in
    if leb (length str) begin then ok none else elim (memrchr str begin 41 first_end) [
      | none ↦ ok none
      | some p ↦ find_board platform str owner (record { begin = begin; end = p }) first_end
    ]

unfoldable pub find_fields : Platform → (str : List ℕ) → Run (Option Fields)
find_fields platform str =
    let first_end = line_end str 0 in
    elim (memstr sender_string (take first_end str)) [
      | none ↦ ok none
      | some found ↦ do
        let begin = length found.0 + 11
        space ← memchr str begin 32 first_end
        elim space [
          | none ↦ ok none
          | some p ↦ find_nick platform str (record { begin = begin; end = p }) first_end
        ]
    ]

-- What is printed for the fields.
unfoldable pub print_fields : Platform → (str : List ℕ) → Fields → Run (List ℕ)
print_fields platform str f = do
  owner ← range str f.owner.begin f.owner.end
  nick ← range str f.nick.begin f.nick.end
  board ← range str f.board.begin f.board.end
  title ← range str f.title.begin f.title.end
  shown ← print_ansi_text platform.convert title plain_color
  ok (
      print_node platform.convert (111 ∷ 119 ∷ 110 ∷ 101 ∷ 114 ∷ []) owner
      ++ print_node platform.convert (110 ∷ 105 ∷ 99 ∷ 107 ∷ []) nick
      ++ print_node platform.convert (98 ∷ 111 ∷ 97 ∷ 114 ∷ 100 ∷ []) board
      ++ (60 ∷ 116 ∷ 105 ∷ 116 ∷ 108 ∷ 101 ∷ 62 ∷ [])
      ++ shown.0
      ++ (60 ∷ 47 ∷ 116 ∷ 105 ∷ 116 ∷ 108 ∷ 101 ∷ 62 ∷ [])
      ++ (60 ∷ 100 ∷ 97 ∷ 116 ∷ 101 ∷ 62 ∷ [])
      ++ platform.format_time f.date
      ++ 60 ∷ 47 ∷ 100 ∷ 97 ∷ 116 ∷ 101 ∷ 62 ∷ [])

-- `_print_header`: what is printed, and the position behind the header.
unfoldable pub print_header : Platform → (str : List ℕ) → Run (List ℕ × ℕ)
print_header platform str = do
  fields ← find_fields platform str
  elim fields [
    | none ↦ ok ([], 0)
    | some f ↦ do printed ← print_fields platform str f; ok (printed, f.behind)
  ]

-- `xml_print_post`: what is printed, and none for NULL, for which it returns -1.
unfoldable pub xml_print_post : Platform → Option (List ℕ) → Options → Run (Option (List ℕ))
xml_print_post platform none option = ok none
xml_print_post platform (some str) option = do
  header ← print_header platform str
  let begin = if header.1 == 0 then 0 else header.1 + 1
  body ← range str begin (length str)
  printed ← print_body platform.convert option body
  ok (some (header.0 ++ printed))
