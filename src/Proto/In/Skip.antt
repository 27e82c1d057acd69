-- ===== src/Proto/In/Skip.antt =====
-- Core/src/proto.cpp: ProtoIn::tell, seek, peakHead, and the skipping of fields, on a string stream. A position is
-- an int, the word of its 32 bits. A skip returns whether its fuel was enough: fields in fields take it.
use ocserver.Common.{
  ℕ, zero, suc, ◌+◌, ◌-◌, ◌*◌, ◌%◌, ◌^◌, Bool, true, false, ◌&&◌, ◌||◌, Option, none, some, length,
  drop, ltb, leb, ◌==◌, if◌then◌else◌,
}
use ocserver.Proto.Types.{
  proto_byte, proto_short, proto_int, proto_long, proto_float, proto_double, proto_string1,
  proto_string4, proto_map, proto_list, proto_struct_begin, proto_struct_end, proto_zero_tag,
  proto_simple_list,
}
use ocserver.Proto.Stream.{Stream, ok, proto_error, length_error, P, ◌>>=◌, ◌>>◌, return, error}
use ocserver.Proto.In.{ProtoHead, read_head, get_char, get_int}
use ocserver.Proto.In.Values.{read_int}

-- `tellg` gives -1 when the stream has failed.
abbrev pub tell_of : Stream → ℕ
tell_of s = if s.good then s.pos % 2 ^ 32 else 2 ^ 32 - 1

unfoldable pub tell : P ℕ
tell s = ok (tell_of s) s

-- `clear`, then `seekg`, which fails in front of the bytes and behind their end, and stays where it is.
abbrev pub seek_in : ℕ → Stream → Stream
seek_in pos s =
    if ltb pos (2 ^ 31) && leb pos (length s.whole)
    then record s { pos = pos; ahead = drop pos s.whole; good = true }
    else record s { good = false }

unfoldable pub seek : ℕ → P Bool
seek pos s = ok true (seek_in pos s)

-- `seek( tell() + len )`
unfoldable pub forward : ℕ → P Bool
unfolding tell seek
forward len = do pos ← tell; seek ((pos + len) % 2 ^ 32)

unfoldable pub peak_head : P ProtoHead
unfolding read_head tell seek
peak_head = do head ← read_head; pos ← tell; seek ((pos + 2 ^ 32 - head.len) % 2 ^ 32); return head

-- `n` fields, by `next`.
unfoldable pub skip_each : P Bool → ℕ → P Bool
skip_each next zero = return true
skip_each next (suc n) =
    next >>= λ done. elim done [ true ↦ skip_each next n | false ↦ return false ]

-- The number of turns of a loop up to the int `n`.
abbrev pub turns : ℕ → ℕ
turns n = if ltb n (2 ^ 31) then n else 0

-- skipField( type ), with `fields` to skip that many fields.
module _ (u : ℕ) where
  unfoldable pub skip_simple_list : P Bool
  unfolding read_head read_int forward
  skip_simple_list = do
    head ← read_head
    if head.type == proto_byte then (read_int u >>= λ r. forward r.1) else error

  unfoldable pub skip_type : (ℕ → P Bool) → ℕ → P Bool
  unfolding skip_simple_list get_char get_int forward
  skip_type fields type =
      if type == proto_byte
      then forward 1
      else if type == proto_short
      then forward 2
      else if type == proto_int || type == proto_float
      then forward 4
      else if type == proto_long || type == proto_double
      then forward 8
      else if type == proto_string1
      then (get_char u >>= forward)
      else if type == proto_string4
      then (get_int u >>= forward)
      else if type == proto_map
      then (get_int u >>= λ len. fields (turns (len * 2 % 2 ^ 32)))
      else if type == proto_list
      then (get_int u >>= λ len. fields (turns len))
      else if type == proto_struct_begin || type == proto_struct_end || type == proto_zero_tag
      then return true
      else if type == proto_simple_list
      then skip_simple_list
      else error

  unfoldable pub skip_field : ℕ → ℕ → P Bool
  unfolding skip_type skip_each read_head
  skip_field zero type = skip_type (λ n. return (n == 0)) type
  skip_field (suc fuel) type =
      skip_type (skip_each (read_head >>= λ head. skip_field fuel head.type)) type

  -- skipField()
  unfoldable pub skip_next : ℕ → P Bool
  unfolding skip_field
  skip_next fuel = read_head >>= λ head. skip_field fuel head.type

  -- The loop, with `turns` as its fuel: none if that is not enough.
  unfoldable pub skip_to_struct_end : ℕ → ℕ → P Bool
  unfolding skip_field
  skip_to_struct_end fuel zero = return false
  skip_to_struct_end fuel (suc n) = do
    head ← read_head
    done ← skip_field fuel head.type
    elim done [
      | true ↦ if head.type == proto_struct_end then return true else skip_to_struct_end fuel n
      | false ↦ return false
    ]

  -- read of a structure: its own readFrom, and then to its end.
  unfoldable pub read_struct {ℓ} : {V : Type ℓ} → P V → ℕ → ℕ → P (Option V)
  unfolding read_head skip_to_struct_end
  read_struct read_from fuel n = do
    head ← read_head
    if head.type == proto_struct_begin
        then (read_from >>= λ v.
            skip_to_struct_end fuel n >>= λ done. return (if done then some v else none))
        else error

  -- `tag <= head.tag`, where head.tag is a signed char and `tag` is not negative.
  abbrev pub tag_reached : ℕ → ProtoHead → Bool
  tag_reached tag head = ltb head.tag 128 && leb tag head.tag

  unfoldable pub found_tag : ℕ → ProtoHead → P (Option Bool)
  unfolding tell seek
  found_tag tag head =
      if tag == head.tag
      then (tell >>= λ pos.
          seek ((pos + 2 ^ 32 - head.len) % 2 ^ 32) >>= λ moved. return (some true))
      else return (some false)

  unfoldable pub skip_loop : ℕ → ℕ → ℕ → P (Option Bool)
  unfolding skip_field found_tag
  skip_loop fuel zero tag = λ s. ok (if s.good then none else some false) s
  skip_loop fuel (suc n) tag = λ s. elim s.good [
    | false ↦ ok (some false) s
    | true ↦
        (read_head >>= λ head.
        if head.type == proto_struct_end
        then return (some false)
        else if tag_reached tag head
        then found_tag tag head
        else (skip_field fuel head.type >>= λ done. elim done [
          | true ↦ skip_loop fuel n tag
          | false ↦ return none
        ]))
          s
  ]

  -- The loop, with a ProtoError caught around it.
  unfoldable pub skip_to_tag : ℕ → ℕ → ℕ → P (Option Bool)
  unfolding skip_loop
  skip_to_tag fuel n tag s = elim (skip_loop fuel n tag s) [
    | ok r s' ↦ ok r s'
    | proto_error s' ↦ ok (some false) s'
    | length_error ↦ length_error
  ]
