-- ===== src/XmlPost/Tests.antt =====
-- Runs on posts, and the theorems at concrete posts.
use fbbs.Common.{ℕ, ◌≡◌, refl, false, none, some, List, [], ◌∷◌, ◌++◌}
use fbbs.Common.Run.{ok, fault, bad_access}
use fbbs.Text.Case.{to_lower}
use fbbs.Common.CString.{begins_with}
use fbbs.XmlPost.{begins_with_case, memstr, get_line_end, escape, escape_char}
use fbbs.XmlPost.Ansi.{
  open_color, plain_color, parse_ansi_code, code_loop, set_code, number, merge, print_ansi_text,
  ansi_loop, decimal,
}
use fbbs.XmlPost.Ansi.Colours.{IsColor, plain-IsColor}
use fbbs.XmlPost.Paragraph.{
  strchr, is_url, get_url, print_url, find_url, paragraph_loop, Options, print_paragraph,
}
use fbbs.XmlPost.Body.{is_blank, print_line, is_quote, is_signature, body_loop, print_body}
use fbbs.XmlPost.Header.{
  range, print_fields, to_int, read_digits, read_signed, skip_blanks, skip_blanks, strtol,
  read_date, parse_header_date, line_end, memrchr, memchr_loop, memchr, find_title, find_board,
  find_nick, find_fields, print_header, Platform, xml_print_post, sender_string,
}
use fbbs.XmlPost.Content.{attributes}
use fbbs.XmlPost.Ansi.Parameters.{parameters, numbers, recolour_all}
use fbbs.XmlPost.Ansi.Pieces.{split}
use fbbs.XmlPost.Ansi.Elements.{quoted, elements, print_ansi_text_lem}
use fbbs.XmlPost.Body.Structure.{print_body_lem}
use fbbs.XmlPost.Body.Lines.{InPart, lines}
use fbbs.XmlPost.Body.{open_part}
use fbbs.XmlPost.Escape.{read_text, shown, escape_round_trip}

abbrev same_text : List ℕ → List ℕ
same_text s = s

abbrev all_shown : Options
all_shown = record { no_sig = false; no_quote_img = false; no_sig_img = false }

-- ESC [1;31m
abbrev red : List ℕ
red = 27 ∷ 91 ∷ 49 ∷ 59 ∷ 51 ∷ 49 ∷ 109 ∷ []

reads_red :
    parse_ansi_code (91 ∷ 49 ∷ 59 ∷ 51 ∷ 49 ∷ 109 ∷ 65 ∷ []) plain_color
    ≡ (65 ∷ [], record { hl = 1; fg = 31; bg = 40 })
unfolding parse_ansi_code code_loop set_code number merge
reads_red = refl

prints_red :
    print_ansi_text same_text (60 ∷ (red ++ 65 ∷ [])) plain_color
    ≡ ok (
      38 ∷ 108 ∷ 116 ∷ 59 ∷ 60 ∷ 99 ∷ 32 ∷ 104 ∷ 61 ∷ 39 ∷ 49 ∷ 39 ∷ 32 ∷ 102 ∷ 61 ∷ 39 ∷ 51 ∷ 49
          ∷ 39 ∷ 32 ∷ 98 ∷ 61 ∷ 39 ∷ 52 ∷ 48 ∷ 39 ∷ 62 ∷ 65 ∷ 60 ∷ 47 ∷ 99 ∷ 62 ∷ [],
      record { hl = 1; fg = 31; bg = 40 },
    )
unfolding print_ansi_text ansi_loop parse_ansi_code code_loop set_code number merge decimal escape
    escape_char
prints_red = refl

print_ansi_text_lem_example :
    (print_ansi_text same_text (60 ∷ (red ++ 65 ∷ [])) plain_color
      ≡ ok (
        (38 ∷ 108 ∷ 116 ∷ 59 ∷ [])
            ++ (open_color (record { hl = 1; fg = 31; bg = 40 }) ++ 65 ∷ 60 ∷ 47 ∷ 99 ∷ 62 ∷ []),
        record { hl = 1; fg = 31; bg = 40 },
      ))
    × IsColor (record { hl = 1; fg = 31; bg = 40 })
unfolding split elements quoted parameters numbers recolour_all number attributes decimal
print_ansi_text_lem_example =
    print_ansi_text_lem same_text (60 ∷ (red ++ 65 ∷ [])) plain_color plain-IsColor

-- "see http://a.b.cd/e&f."
abbrev linked : List ℕ
linked =
    115 ∷ 101 ∷ 101 ∷ 32 ∷ 104 ∷ 116 ∷ 116 ∷ 112 ∷ 58 ∷ 47 ∷ 47 ∷ 97 ∷ 46 ∷ 98 ∷ 46 ∷ 99 ∷ 100 ∷ 47
    ∷ 101 ∷ 38 ∷ 102 ∷ 32 ∷ 60 ∷ []

-- ": a", "b", the line of the signature, and "c".
abbrev signed : List ℕ
signed = 58 ∷ 32 ∷ 97 ∷ 10 ∷ 98 ∷ 98 ∷ 10 ∷ 45 ∷ 45 ∷ 10 ∷ 99 ∷ 99 ∷ []

print_body_lem_example :
    (out : List ℕ) × (print_body same_text all_shown signed ≡ ok (open_part 116 ++ out))
    × InPart same_text all_shown false
        ((58 ∷ 32 ∷ 97 ∷ 10 ∷ []) ∷ (98 ∷ 98 ∷ 10 ∷ []) ∷ (45 ∷ 45 ∷ 10 ∷ []) ∷ (99 ∷ 99 ∷ []) ∷ [])
        out
unfolding lines
print_body_lem_example = print_body_lem same_text all_shown (λ s h. refl) signed

escape_round_trip_example :
    read_text none (escape (60 ∷ 98 ∷ 62 ∷ 32 ∷ 27 ∷ 38 ∷ []))
    ≡ some (60 ∷ 98 ∷ 62 ∷ 0xc2 ∷ 0xa0 ∷ 38 ∷ [])
unfolding shown
escape_round_trip_example = escape_round_trip (60 ∷ 98 ∷ 62 ∷ 32 ∷ 27 ∷ 38 ∷ [])

-- A short link is printed as it is, with its "&"; a line of one byte without a newline is shown as empty.
short_link :
    print_paragraph same_text all_shown (104 ∷ 116 ∷ 116 ∷ 112 ∷ 58 ∷ 47 ∷ 47 ∷ 97 ∷ 38 ∷ 98 ∷ [])
    ≡ ok (104 ∷ 116 ∷ 116 ∷ 112 ∷ 58 ∷ 47 ∷ 47 ∷ 97 ∷ 38 ∷ 98 ∷ [])
unfolding print_paragraph paragraph_loop find_url memstr begins_with print_ansi_text ansi_loop
    print_url get_url is_url strchr escape
short_link = refl

one_byte :
    print_body same_text all_shown (65 ∷ [])
    ≡ ok (
        60 ∷ 112 ∷ 97 ∷ 32 ∷ 109 ∷ 61 ∷ 39 ∷ 116 ∷ 39 ∷ 62 ∷ 60 ∷ 112 ∷ 62 ∷ 60 ∷ 98 ∷ 114 ∷ 47 ∷ 62
        ∷ 60 ∷ 47 ∷ 112 ∷ 62 ∷ 60 ∷ 47 ∷ 112 ∷ 97 ∷ 62 ∷ [])
unfolding print_body body_loop get_line_end is_signature begins_with is_quote begins_with_case
    to_lower print_line is_blank
one_byte = refl

-- A clock that always gives the same day.
abbrev platform : Platform
platform = record { mktime = λ t. some 830000000; format_time = λ n. 100 ∷ []; convert = same_text }

-- The sender's name "o" and the nick "n".
abbrev sender : List ℕ
sender = sender_string ++ 111 ∷ 32 ∷ 40 ∷ 110 ∷ 41 ∷ []

-- Without a colon behind the nick the name of the board is read at NULL.
no_colon :
    xml_print_post platform (some (sender ++ 10 ∷ 97 ∷ 98 ∷ 10 ∷ [])) all_shown ≡ fault bad_access
unfolding xml_print_post print_header find_fields find_nick find_board memchr memchr_loop memrchr
    line_end get_line_end memstr begins_with
no_colon = refl

-- "(1996", and so on, in a line of its own.
abbrev date_line : List ℕ
date_line =
    40 ∷ 49 ∷ 57 ∷ 57 ∷ 54 ∷ 0xe5 ∷ 0xb9 ∷ 0xb4 ∷ 48 ∷ 52 ∷ 0xe6 ∷ 0x9c ∷ 0x88 ∷ 49 ∷ 57 ∷ 0xe6
    ∷ 0x97 ∷ 0xa5 ∷ 49 ∷ 49 ∷ 58 ∷ 49 ∷ 49 ∷ 58 ∷ 49 ∷ 49 ∷ 41 ∷ 10 ∷ []

-- A second line without a title is read behind its end.
no_title :
    xml_print_post platform (some (sender ++ 58 ∷ 32 ∷ 98 ∷ 10 ∷ 10 ∷ date_line)) all_shown
    ≡ fault bad_access
unfolding xml_print_post print_header find_fields find_nick find_board find_title memchr memchr_loop
    memrchr line_end get_line_end memstr begins_with parse_header_date read_date strtol skip_blanks
    read_signed read_digits to_int print_fields range
no_title = refl

abbrev titled : List ℕ
titled =
    sender
    ++ 58 ∷ 32 ∷ 98 ∷ 10 ∷ 46 ∷ 46 ∷ 46 ∷ 46 ∷ 46 ∷ 46 ∷ 46 ∷ 46 ∷ 46 ∷ 46 ∷ 116 ∷ 10 ∷ date_line

-- So is a post that ends with its header.
no_body : xml_print_post platform (some titled) all_shown ≡ fault bad_access
unfolding xml_print_post print_header find_fields find_nick find_board find_title memchr memchr_loop
    memrchr line_end get_line_end memstr begins_with parse_header_date read_date strtol skip_blanks
    read_signed read_digits to_int print_fields range print_ansi_text ansi_loop
no_body = refl

fields :
    find_fields platform titled
    ≡ ok (
        some (record {
          owner = record { begin = 11; end = 12 };
          nick = record { begin = 14; end = 15 };
          board = record { begin = 18; end = 19 };
          title = record { begin = 30; end = 31 };
          date = 830000000;
          behind = 60;
        }))
unfolding find_fields find_nick find_board find_title memchr memchr_loop memrchr line_end
    get_line_end memstr begins_with parse_header_date read_date strtol skip_blanks read_signed
    read_digits to_int
fields = refl
