-- ===== src/Proxy/Message.antt =====
-- packages/mcp/src/proxy.ts: the messages that the engine reads and writes.
use arky_foundation.Common.{
  Bool, true, false, not, if◌then◌else◌, List, [], ◌∷◌, ◌++◌, map, keep, Option, none, some, Text,
  codes, text_eq, ◌≡◌, refl,
}
use arky_foundation.Engine.{Engine}
use arky_foundation.Json.{
  Value, undefined, null, bool, num, str, arr, obj, Items, nil, cons, get, object, array,
  is_undefined,
}
use arky_foundation.Tim.Create.{has_field}

abbrev pub is_text : Text → Value → Bool
is_text s (str t) = text_eq t s
is_text s _ = false

-- an element of an array that `join` leaves empty
abbrev is_nullish : Value → Bool
is_nullish undefined = true
is_nullish null = true
is_nullish _ = false

module _ ⦃engine : Engine⦄ where
  -- `String(v)` of a JSON value. An object with a member `toString`, which is no function, raises.
  unfoldable mutual
    unfolding has_field

    pub string_of : Value → Option Text
    string_of undefined = some (codes "undefined")
    string_of null = some (codes "null")
    string_of (bool true) = some (codes "true")
    string_of (bool false) = some (codes "false")
    string_of (num n) = some (engine.text_of_number n)
    string_of (str s) = some s
    string_of (arr vs) = joined vs
    string_of (obj fs) =
        if has_field (codes "toString") fs then none else some (codes "[object Object]")

    pub joined : Items → Option Text
    joined nil = some []
    joined (cons v vs) =
        let first = string_of v in
        let rest = joined_rest vs in
        elim (if is_nullish v then some [] else first) [
          | none ↦ none
          | some s ↦ elim rest [ none ↦ none | some t ↦ some (s ++ t) ]
        ]

    pub joined_rest : Items → Option Text
    joined_rest nil = some []
    joined_rest (cons v vs) =
        let first = string_of v in
        let rest = joined_rest vs in
        elim (if is_nullish v then some [] else first) [
          | none ↦ none
          | some s ↦ elim rest [ none ↦ none | some t ↦ some (b',' ∷ (s ++ t)) ]
        ]

  pub string_of-str : (s : Text) → string_of (str s) ≡ some s
  unfolding string_of
  string_of-str s = refl

-- a call of a tool; an element of a batch is tested alike
unfoldable pub is_tool_call : Value → Bool
unfolding get text_eq
is_tool_call m = is_text (codes "tools/call") (get (codes "method") m)

-- `denyReply`
unfoldable pub deny_reply : Value → Text → Value
deny_reply id detail = object (
    (codes "jsonrpc", str (codes "2.0"))
    ∷ (codes "id", id)
    ∷ (
      codes "result",
      object (
          (
            codes "content",
            array (
                object (
                  (codes "type", str (codes "text"))
                  ∷ (
                    codes "text",
                    str (codes "Arky policy denied this tool call (" ++ (detail ++ codes ")")),
                  )
                  ∷ [])
                ∷ []),
          )
          ∷ (codes "isError", bool true)
          ∷ []),
    )
    ∷ [])

abbrev has_id : Value → Bool
has_id m = not (is_undefined (get (codes "id") m))

abbrev batch_reply : Value → Value
batch_reply m = deny_reply (get (codes "id") m) (codes "batched tools/call is not allowed")

-- the replies to the calls of a batch that have an id
unfoldable pub batch_replies : List Value → List Value
unfolding is_tool_call deny_reply get
batch_replies ms = map batch_reply (keep has_id (keep is_tool_call ms))
