-- ===== src/Contracts/HttpClient.antt =====
-- packages/contracts/src/http-client.mjs: the bounded reading of a response. The decoder of UTF-8 and
-- `JSON.parse` are arguments; `jsonPayloadSha256` is not modelled.
pub mod Bounded
use Prim.Native.Char.{code}
use Prim.Native.String.{◌++◌ as text_append}
use eacl_demo.Base.{
  ℕ, ◌+◌, ◌-◌, ◌*◌, Bool, true, false, ◌&&◌, leb, ltb, if◌then◌else◌, code_within, String, len,
  List, [], ◌∷◌, ◌++◌, length, Option, none, some, Result, ok, err, ◌>>=◌, ◌>>◌, require,
}
use eacl_demo.Json.{Json, Members, obj}

abbrev pub maximum_response_bytes : ℕ
maximum_response_bytes = 1048576

-- What `reader.read()` answers before it is done: bytes, something else, or it throws.
pub data Read : Type 0 where
  bytes : List ℕ → Read
  not_bytes read_throws : Read

-- The body: a stream, with whether canceling it throws, or what `text()` answers.
pub data ResponseBody : Type 0 where
  stream : Bool → List Read → ResponseBody
  whole_text : Option String → ResponseBody
  unreadable : ResponseBody

pub record HttpResponse : Type 0 where
  -- The header `content-length`, if there is one.
  pub declared : Option String
  pub body : ResponseBody

pub data ReadError : Type 0 where
  bad_configuration too_large read_failed cancel_failed non_byte undecodable no_body : ReadError
  invalid_response : ReadError

-- The value of `/^[0-9]+$/u`, read from the left.
pub digits_value : ℕ → String → Option ℕ
digits_value n String.[] = some n
digits_value n (String.◌∷◌ c s) =
    let rest = digits_value (n * 10 + (code c - 48)) s in if code_within 48 57 c then rest else none

unfoldable pub declared_fits : ℕ → Option String → Bool
unfolding digits_value
declared_fits maximum none = true
declared_fits maximum (some String.[]) = false
declared_fits maximum (some (String.◌∷◌ c s)) = elim (digits_value 0 (String.◌∷◌ c s)) [
  | none ↦ false
  | some n ↦ leb n maximum
]

abbrev pub join : List String → String
join [] = ""
join (s ∷ ss) = text_append s (join ss)

-- What a read leaves behind: its result, the bytes whose text was kept, and the reader's state.
pub record Reading : Type 0 where
  pub outcome : Result ReadError (List String)
  pub held : ℕ
  pub canceled : Bool

abbrev pub stopped : ReadError → ℕ → Reading
stopped e held = record { outcome = err e; held = held; canceled = false }

-- `reader.cancel`, and the error that is thrown then.
abbrev pub cancel_reader : Bool → ℕ → Reading
cancel_reader throws held = record {
  outcome = err (if throws then ReadError.cancel_failed else too_large);
  held = held;
  canceled = true;
}

module _ (decode : List (List ℕ) → List ℕ → Option String)
    (flush : List (List ℕ) → Option String) where
  -- The last `decoder.decode()`.
  abbrev pub finish_reading : List String → ℕ → Option String → Reading
  finish_reading parts total none = stopped undecodable total
  finish_reading parts total (some last) = record {
    outcome = ok (parts ++ last ∷ []);
    held = total;
    canceled = false;
  }

  -- The loop, with the chunks that were fed to the decoder so far, `parts` and `total`.
  unfoldable pub read_chunks : ℕ → Bool → List (List ℕ) → List String → ℕ → List Read → Reading
  read_chunks maximum throws fed parts total [] = finish_reading parts total (flush fed)
  read_chunks maximum throws fed parts total (not_bytes ∷ reads) = stopped non_byte total
  read_chunks maximum throws fed parts total (read_throws ∷ reads) =
      stopped ReadError.read_failed total
  read_chunks maximum throws fed parts total (bytes chunk ∷ reads) =
      let rest = λ (part : String).
        read_chunks maximum throws (fed ++ chunk ∷ []) (parts ++ part ∷ []) (total + length chunk)
          reads in
      if ltb maximum (total + length chunk)
      then cancel_reader throws total
      else elim (decode fed chunk) [ none ↦ stopped undecodable total | some part ↦ rest part ]

  abbrev pub text_of : Result ReadError (List String) → Result ReadError String
  text_of (err e) = err e
  text_of (ok parts) = ok (join parts)

  abbrev pub bounded_text : ℕ → Option String → Result ReadError String
  bounded_text maximum none = err ReadError.read_failed
  bounded_text maximum (some text) = if ltb maximum (len text) then err too_large else ok text

  unfoldable pub read_body_text : ℕ → ResponseBody → Result ReadError String
  unfolding read_chunks
  read_body_text maximum (stream throws reads) =
      text_of (read_chunks maximum throws [] [] 0 reads).outcome
  read_body_text maximum (whole_text text) = bounded_text maximum text
  read_body_text maximum unreadable = err no_body

  unfoldable pub read_bounded_text_response : ℕ → HttpResponse → Result ReadError String
  unfolding declared_fits read_body_text
  read_bounded_text_response maximum response = do
    require (leb 1 maximum && leb maximum maximum_response_bytes) bad_configuration
    require (declared_fits maximum response.declared) too_large
    read_body_text maximum response.body

  unfoldable pub read_bounded_json_response :
      (String → Option Json) → ℕ → HttpResponse → Result ReadError Members
  unfolding read_bounded_text_response
  read_bounded_json_response parse_json maximum response = do
    text ← read_bounded_text_response maximum response
    elim (parse_json text) [ some (obj members) ↦ ok members | _ ↦ err invalid_response ]
