-- ===== src/Terminal/Input.antt =====
-- The input side of src/terminal.c: the buffer, telnet commands, escape sequences and `igetch`.
pub mod Buffered
pub mod Telnet
pub mod Keys
pub mod Lines
use fbbs.Common.{
  ◌^◌, ℕ, zero, suc, ◌+◌, ◌-◌, Bool, true, false, not, ◌&&◌, ◌||◌, Option, none, some, List, [],
  ◌∷◌, ◌++◌, ltb, leb, ◌==◌, if◌then◌else◌, length, get_elem?,
}
use fbbs.Common.Run.{Run, ok, fault, endless, ◌>>=◌}

-- `input_buffer_t`: what the last read gave, of which `cur` bytes are taken; and what the reads to come
-- will give, each at most 48 bytes. A read that gives none ends the session.
pub record Input : Type 0 where
  pub ptr : List ℕ
  pub cur : ℕ
  pub reads : List (List ℕ)

unfoldable pub refill : Input → List (List ℕ) → Option (ℕ × Input)
refill i [] = none
refill i ([] ∷ reads) = none
refill i ((c ∷ cs) ∷ reads) = some (c, record { ptr = c ∷ cs; cur = 1; reads = reads })

-- `get_raw_ch`; none is `abort_bbs`.
unfoldable pub get_raw_ch : Input → Option (ℕ × Input)
unfolding refill
get_raw_ch i = elim (get_elem? i.ptr i.cur) [
  | none ↦ refill i i.reads
  | some c ↦ some (c, record i { cur = i.cur + 1 })
]

unfoldable pub input_buffer_empty : Input → Bool
input_buffer_empty i = elim (get_elem? i.ptr i.cur) [
  | none ↦ true
  | some c ↦ c == 0 && i.cur == length i.ptr - 1
]

-- Below, the input is the list of the bytes that `get_raw_ch` returns.

-- `option_status_e`
pub data OptionStatus : Type 0 where
  status_nor status_iac status_com status_sub status_sbc status_end : OptionStatus

-- The variables of `handle_iac`; `buf` has `size` bytes, 8 at most.
pub record Iac : Type 0 where
  pub status : OptionStatus
  pub naws : Bool
  pub buf : List ℕ

abbrev pub iac_start : Iac
iac_start = record { status = status_iac; naws = false; buf = [] }

-- `screen_init(buf[3])`: the byte is a signed `char`, and the int is given by its 32 bits.
abbrev pub as_int : ℕ → ℕ
as_int c = if ltb c 128 then c else c + (2 ^ 32 - 256)

abbrev pub resize : Iac → Option ℕ
resize s =
    if s.naws && length s.buf == 5
    then elim (get_elem? s.buf 3) [ none ↦ none | some c ↦ some (as_int c) ]
    else none

unfoldable pub sub_step : Iac → ℕ → Iac × Option ℕ
sub_step s ch =
    if ch == 31
    then (record s { naws = true; buf = [] }, none)
    else if ch == 240
    then (record s { status = status_end }, resize s)
    else if s.naws && ltb (length s.buf) 8
    then (record s { buf = s.buf ++ ch ∷ [] }, none)
    else (s, none)

unfoldable pub iac_step : OptionStatus → Iac → ℕ → Iac × Option ℕ
unfolding sub_step
iac_step status_iac s ch =
    (record s { status = if ch == 250 then status_sub else status_com }, none)
iac_step status_com s ch = (record s { status = status_end }, none)
iac_step status_sub s ch = sub_step s ch
iac_step status_nor s ch = (s, none)
iac_step status_sbc s ch = (s, none)
iac_step status_end s ch = (s, none)

abbrev pub is_end : OptionStatus → Bool
is_end status_end = true
is_end status_iac = false
is_end status_com = false
is_end status_sub = false
is_end status_nor = false
is_end status_sbc = false

-- `handle_iac`: the height that is asked for, and the bytes behind the command.
unfoldable pub handle_iac : Iac → List ℕ → Option (Option ℕ × List ℕ)
handle_iac s [] = none
handle_iac s (ch ∷ rest) =
    let (t, lines) = iac_step s.status s ch in
    let further = handle_iac t rest in if is_end t.status then some (lines, rest) else further

-- `esc_status_e`
pub data EscStatus : Type 0 where
  esc_beg esc_cur esc_fun esc_err : EscStatus

-- What one byte does: a key and what `KEY_ESC_arg` becomes, or the next status.
pub data EscStep : Type 0 where
  esc_key : (key : ℕ) → (arg : Option ℕ) → EscStep
  esc_next : EscStatus → EscStep

unfoldable pub esc_step : EscStatus → (last ch : ℕ) → EscStep
esc_step esc_beg last ch =
    if ch == 91 || ch == 79
    then esc_next esc_cur
    else if ch == 49 || ch == 52
    then esc_next esc_fun
    else esc_key 27 (some ch)
esc_step esc_cur last ch =
    if leb 65 ch && leb ch 68
    then esc_key (0x101 + ch - 65) none
    else if leb 49 ch && leb ch 54
    then esc_next esc_fun
    else esc_next esc_err
esc_step esc_fun last ch =
    if ch == 126 && leb 49 last && leb last 54
    then esc_key (0x201 + last - 49) none
    else esc_next esc_err
esc_step esc_err last ch = esc_key ch none

-- `handle_esc`: the key, `KEY_ESC_arg` where it is set, and the bytes behind the sequence.
unfoldable pub handle_esc : EscStatus → (last : ℕ) → List ℕ → Option (ℕ × Option ℕ × List ℕ)
handle_esc status last [] = none
handle_esc status last (ch ∷ rest) = elim (esc_step status last ch) [
  | esc_key key arg ↦ some (key, arg, rest)
  | esc_next next ↦ handle_esc next ch rest
]

-- The calls of the screen that `igetch` makes.
pub data Call : Type 0 where
  redraw : Call
  set_lines : ℕ → Call

-- What a call of `igetch` returns and leaves; `cr` is its static variable.
pub record Got : Type 0 where
  pub key : ℕ
  pub cr : Bool
  pub arg : Option ℕ
  pub calls : List Call
  pub rest : List ℕ

abbrev pub lines_call : Option ℕ → List Call
lines_call none = []
lines_call (some n) = set_lines n ∷ []

-- What a byte other than a command or an escape does: it is returned, or the loop goes on.
pub data Plain : Type 0 where
  returns : (key : ℕ) → (cr : Bool) → Plain
  goes_on : (cr : Bool) → Plain

unfoldable pub plain_step : (cr : Bool) → ℕ → Plain
plain_step cr ch =
    if ch == 13
    then returns 10 true
    else if ch == 10
    then (if cr then goes_on false else returns 10 false)
    else if ch == 0
    then goes_on false
    else returns ch false

-- The loop of `igetch`; none is the end of the session.
unfoldable pub igetch_loop : (fuel : ℕ) → (cr : Bool) → List Call → List ℕ → Run (Option Got)
igetch_loop zero cr calls s = fault endless
igetch_loop (suc fuel) cr calls [] = ok none
igetch_loop (suc fuel) cr calls (ch ∷ rest) =
    if ch == 255
    then elim (handle_iac iac_start rest) [
      | none ↦ ok none
      | some r ↦ igetch_loop fuel cr (calls ++ lines_call r.0) r.1
    ]
    else if ch == 27
    then elim (handle_esc esc_beg 0 rest) [
      | none ↦ ok none
      | some r ↦ ok (some (record { key = r.0; cr = cr; arg = r.1; calls = calls; rest = r.2 }))
    ]
    else if ch == 12
    then igetch_loop fuel cr (calls ++ redraw ∷ []) rest
    else elim (plain_step cr ch) [
      | returns key now ↦
          ok (some (record { key = key; cr = now; arg = none; calls = calls; rest = rest }))
      | goes_on now ↦ igetch_loop fuel now calls rest
    ]

-- Each round takes a byte.
unfoldable pub igetch : (cr : Bool) → List ℕ → Run (Option Got)
igetch cr s = igetch_loop (length s + 1) cr [] s
