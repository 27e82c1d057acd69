-- ===== src/Proto/Display.antt =====
-- Core/src/proto.h and Core/src/proto.cpp, class ProtoDisplay: the values of a string stream as text. A function gives
-- what it puts on the output. How an ostream prints numbers is an argument.
pub mod Stuck
use ocserver.Common.{
  ℕ, zero, suc, ◌+◌, ◌-◌, ◌^◌, Bool, true, false, not, ◌&&◌, ◌||◌, List, [], ◌∷◌, ◌++◌, Option,
  none, some, length, ltb, leb, ◌==◌, if◌then◌else◌, codes, same,
}
use ocserver.Proto.Types.{
  proto_byte, proto_short, proto_int, proto_long, proto_float, proto_double, proto_string1,
  proto_string4, proto_map, proto_list, proto_struct_begin, proto_struct_end, proto_zero_tag,
  proto_simple_list,
}
use ocserver.Proto.Stream.{Stream, ok, P, ◌>>=◌, return}
use ocserver.Proto.In.{ProtoHead, read_head}
use ocserver.Proto.In.Values.{
  Printer, read_char, read_short, read_int, read_long, read_float, read_double, read_string,
  read_bytes, read_list, read_map,
}
use ocserver.Proto.In.Skip.{peak_head, skip_to_struct_end}
use ocserver.Util.{Formats, buffer_to_string}

-- How signed integers are printed, of which the words are given, and what the reads and Buffer2String use.
pub record Printers : Type 0 where
  pub print_short : ℕ → List ℕ
  pub print_int : ℕ → List ℕ
  pub print_long : ℕ → List ℕ
  pub float_to_double : ℕ → ℕ
  pub printer : Printer
  pub formats : Formats

pub record Mode : Type 0 where
  pub is_simple : Bool
  pub b_sep : Bool
  pub level : ℕ

abbrev pub tabs : ℕ → List ℕ
tabs zero = []
tabs (suc n) = 9 ∷ tabs n

abbrev pub wrap : Mode → List ℕ → List ℕ
wrap m field_name = tabs m.level ++ field_name

abbrev pub separator : Mode → List ℕ
separator m = if m.b_sep then codes "|" else []

-- display of a string, and of a number that is printed; a vector of bytes and a map have the same around
-- their elements.
abbrev pub display_text : Mode → List ℕ → List ℕ → List ℕ
display_text m s field_name =
    if m.is_simple then s ++ separator m else (wrap m field_name ++ s) ++ (10 ∷ [])

abbrev pub display_bool : Mode → Bool → List ℕ → List ℕ
display_bool m b field_name = display_text m (if b then codes "True" else codes "False") field_name

-- The flags while a vector or a map is put out.
abbrev pub inner : Mode → Mode
inner m = record m { is_simple = true; b_sep = false }

abbrev pub display_char : Formats → Mode → ℕ → List ℕ → List ℕ
display_char formats m c field_name =
    display_text m ((92 ∷ codes "x") ++ buffer_to_string formats (c ∷ []) []) field_name

abbrev pub chars_text : Formats → Mode → List ℕ → List ℕ
chars_text formats m [] = []
chars_text formats m (c ∷ cs) = display_char formats m c [] ++ chars_text formats m cs

abbrev pub display_chars : Formats → Mode → List ℕ → List ℕ → List ℕ
display_chars formats m b field_name = display_text m (chars_text formats (inner m) b) field_name

-- `b` is whether an element was put out before.
abbrev pub elements_text : Bool → List (List ℕ) → List ℕ
elements_text b [] = []
elements_text b (s ∷ ss) = (if b then codes "," else []) ++ s ++ elements_text true ss

abbrev pub display_list : Mode → List (List ℕ) → List ℕ → List ℕ
display_list m [] field_name = display_text m (codes "[]") field_name
display_list m (s ∷ ss) field_name =
    display_text m (codes "[" ++ elements_text false (s ∷ ss) ++ codes "]") field_name

abbrev pub entries_text : Bool → Mode → List (List ℕ × List ℕ) → List ℕ
entries_text b m [] = []
entries_text b m ((k, v) ∷ rest) =
    (if b then codes "," else [])
    ++ display_text m k []
    ++ codes ":"
    ++ display_text m v []
    ++ entries_text true m rest

-- For an empty map `display( "{}", fieldName )` is the overload with a bool, which takes the pointer.
abbrev pub display_map : Mode → List (List ℕ × List ℕ) → List ℕ → List ℕ
display_map m [] field_name = display_bool m true field_name
display_map m (e ∷ es) field_name =
    display_text m (codes "{" ++ entries_text false (inner m) (e ∷ es) ++ codes "}") field_name

-- A `std::map` from string to string, in the order of its keys.
abbrev pub comes_before : List ℕ → List ℕ → Bool
comes_before [] [] = false
comes_before [] (y ∷ ys) = true
comes_before (x ∷ xs) [] = false
comes_before (x ∷ xs) (y ∷ ys) = if x == y then comes_before xs ys else ltb x y

abbrev pub store_ordered : List ℕ → List ℕ → List (List ℕ × List ℕ) → List (List ℕ × List ℕ)
store_ordered k v [] = (k, v) ∷ []
store_ordered k v ((i, w) ∷ m) =
    let rest = store_ordered k v m in
    if same k i then (i, v) ∷ m else if comes_before k i then (k, v) ∷ (i, w) ∷ m else (i, w) ∷ rest

abbrev pub get_name_by_type : ℕ → List ℕ
get_name_by_type type =
    if type == proto_byte
    then codes "BYTE: "
    else if type == proto_double
    then codes "DOUBLE: "
    else if type == proto_float
    then codes "FLOAT: "
    else if type == proto_int
    then codes "INT: "
    else if type == proto_list
    then codes "LIST: "
    else if type == proto_long
    then codes "LONG: "
    else if type == proto_map
    then codes "MAP: "
    else if type == proto_short
    then codes "SHORT: "
    else if type == proto_simple_list
    then codes "SIMPLE_LIST: "
    else if type == proto_string1
    then codes "STRING1: "
    else if type == proto_string4
    then codes "STRING4: "
    else if type == proto_struct_begin
    then codes "STRUCT_BEGIN: " ++ (10 ∷ [])
    else if type == proto_struct_end
    then codes "STRUCT_END" ++ (10 ∷ [])
    else if type == proto_zero_tag
    then codes "ZERO_TAG: "
    else codes "UNKNOWN"

-- A `char` as a wider signed integer of `bits` bits.
abbrev pub widen : ℕ → ℕ → ℕ
widen bits c = if ltb c 128 then c else c + 2 ^ bits - 2 ^ 8

-- What a value leads to: whether to go on, and the text; none if the fuel was not enough.
abbrev pub Shown : Type 0
Shown = Option (Bool × List ℕ)

-- The value is read, and put out.
abbrev pub show {ℓ} : {A : Type ℓ} → P (ℕ × A) → (A → List ℕ) → P Shown
show read text = read >>= λ r. return (some (true, text r.1))

module _ (u : ℕ) (printers : Printers) where
  open printers use {print_short, print_int, print_long, float_to_double, printer, formats}

  abbrev pub field_name : ProtoHead → List ℕ
  field_name head = print_int (widen 32 head.tag) ++ codes "," ++ get_name_by_type head.type

  -- displayStruct, where `nested` is do_display of the ProtoDisplay one level below.
  unfoldable pub display_struct : (Mode → P (Option (List ℕ))) → Mode → List ℕ → P Shown
  display_struct nested m name =
      nested (record { is_simple = m.is_simple; b_sep = true; level = m.level + 1 }) >>= λ r.
      return (elim r [ none ↦ none | some text ↦ some (true, wrap m name ++ text) ])

  -- The switch. The peeked head of STRUCT_END is the one that skipToStructEnd stops at.
  unfoldable pub display_value : (Mode → P (Option (List ℕ))) → Mode → ProtoHead → P Shown
  unfolding display_struct read_head skip_to_struct_end read_char read_short read_int read_long
      read_float read_double read_string read_list read_map read_bytes
  display_value nested m head =
      let name = field_name head in
      if head.type == proto_zero_tag || head.type == proto_byte
      then show (read_char u) (λ by. display_text m (print_short (widen 16 by)) name)
      else if head.type == proto_short
      then show (read_short u) (λ s. display_text m (print_short s) name)
      else if head.type == proto_int
      then show (read_int u) (λ i. display_text m (print_int i) name)
      else if head.type == proto_long
      then show (read_long u) (λ a. display_text m (print_long a) name)
      else if head.type == proto_float
      then show (read_float u) (λ b. display_text m (printer.print_float b) name)
      else if head.type == proto_double
      then show (read_double u float_to_double) (λ c. display_text m (printer.print_double c) name)
      else if head.type == proto_string1 || head.type == proto_string4
      then show (read_string u printer) (λ d. display_text m d name)
      else if head.type == proto_list
      then show (read_list u (read_string u printer)) (λ e. display_list m e name)
      else if head.type == proto_map
      then show (read_map (read_string u printer) (read_string u printer) store_ordered u [])
          (λ f. display_map m f name)
      else if head.type == proto_struct_begin
      then (read_head >>= λ begin. display_struct nested m name)
      else if head.type == proto_struct_end
      then (skip_to_struct_end u 0 1 >>= λ done. return (if done then some (false, name) else none))
      else if head.type == proto_simple_list
      then show (read_bytes u) (λ v. display_chars formats m v name)
      else return (some (true, []))

  unfoldable pub display_proto : (Mode → P (Option (List ℕ))) → Mode → P Shown
  unfolding display_value peak_head
  display_proto nested m = peak_head >>= λ head.
      λ s. if s.good then display_value nested m head s else ok (some (false, [])) s

  -- The loop.
  unfoldable pub do_display : ℕ → Mode → P (Option (List ℕ))
  unfolding display_proto
  do_display zero m = return none
  do_display (suc fuel) m = λ s. elim s.good [
    | false ↦ ok (some []) s
    | true ↦
        (display_proto (do_display fuel) m >>= λ r. elim r [
          | none ↦ return none
          | some (go, text) ↦ elim go [
            | false ↦ return (some text)
            | true ↦ do_display fuel m >>= λ rest.
                return (elim rest [ none ↦ none | some more ↦ some (text ++ more) ])
          ]
        ])
          s
  ]
