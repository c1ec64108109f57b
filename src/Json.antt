-- ===== src/Json.antt =====
-- JSON values as packages/fixture-generator/canonical-json.mjs receives them, and `JSON.stringify`
-- on them. A member list stands for an object's own keys in the order in which JavaScript lists them;
-- the keys of an object differ.
pub mod Canonical
pub mod Order
pub mod Reorder
pub mod Sorted
use Prim.Native.Char.{Char, code}
use Prim.Native.String.{String, ◌++◌}
use eacl_demo.Base.{ℕ, ◌+◌, ◌/◌, ◌%◌, Bool, true, false, ltb, ◌==◌, if◌then◌else◌, decimal}

-- `unsafe` stands for what the canonical form refuses: a bigint, `undefined`, and a number that is
-- negative, fractional or not finite.
mutual
  pub data Json : Type 0 where
    null : Json
    bool : Bool → Json
    num : ℕ → Json
    unsafe : Json
    str : String → Json
    arr : Items → Json
    obj : Members → Json

  pub data Items : Type 0 where
    nil : Items
    cons : Json → Items → Items

  pub data Members : Type 0 where
    end : Members
    member : String → Json → Members → Members

abbrev pub hex_digit : ℕ → String
hex_digit n =
    if ltb n 10
    then decimal n
    else if n == 10
    then "a"
    else if n == 11
    then "b"
    else if n == 12
    then "c"
    else if n == 13
    then "d"
    else if n == 14
    then "e"
    else "f"

-- How `JSON.stringify` writes a character.
abbrev pub escape : Char → String
escape c =
    if code c == 0x22
    then "\\\""
    else if code c == 0x5c
    then "\\\\"
    else if code c == 8
    then "\\b"
    else if code c == 9
    then "\\t"
    else if code c == 10
    then "\\n"
    else if code c == 12
    then "\\f"
    else if code c == 13
    then "\\r"
    else if ltb (code c) 0x20
    then "\\u00" ++ hex_digit (code c / 16) ++ hex_digit (code c % 16)
    else String.◌∷◌ c String.[]

pub escape_all : String → String
escape_all String.[] = ""
escape_all (String.◌∷◌ c s) = escape c ++ escape_all s

unfoldable pub quote : String → String
unfolding escape_all
quote s = "\"" ++ escape_all s ++ "\""

unfoldable mutual
  unfolding quote

  pub stringify : Json → String
  stringify null = "null"
  stringify (bool true) = "true"
  stringify (bool false) = "false"
  stringify (num n) = decimal n
  stringify unsafe = "null"
  stringify (str s) = quote s
  stringify (arr xs) = "[" ++ stringify_items xs ++ "]"
  stringify (obj ms) = "{" ++ stringify_members ms ++ "}"

  pub stringify_items : Items → String
  stringify_items nil = ""
  stringify_items (cons x nil) = stringify x
  stringify_items (cons x (cons y xs)) = stringify x ++ "," ++ stringify_items (cons y xs)

  pub stringify_members : Members → String
  stringify_members end = ""
  stringify_members (member k v end) = quote k ++ ":" ++ stringify v
  stringify_members (member k v (member j w ms)) =
      quote k ++ ":" ++ stringify v ++ "," ++ stringify_members (member j w ms)
