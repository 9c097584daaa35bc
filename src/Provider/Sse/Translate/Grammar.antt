-- ===== src/Provider/Sse/Translate/Grammar.antt =====
-- A legal stream of OpenAI chunks, told without its writer.
use llmbridge.Base.{
  ℕ, suc, ◌<◌, ◌≡◌, refl, Bool, true, false, [], ◌∷◌, ◌++◌, Option, none, some, if◌then◌else◌,
  arith,
}
use llmbridge.Base.Bytes.{Bytes, codes, is_empty}
use llmbridge.Http.Write.{append_decimal}
use llmbridge.Provider.Openai.{Usage, append_sanitized, close}

abbrev pub reason_text : Option Bytes → Bytes
reason_text none = codes "null"
reason_text (some r) = b'"' ∷ r ++ codes "\""

abbrev pub usage_text : Bool → Bytes
usage_text true = codes ",\"usage\":null"
usage_text false = []

-- One chunk: `"usage":null` stands in it where the client asked for usage.
unfoldable pub chunk_of : Bool → Bytes → Bytes → Bytes → Bytes → Option Bytes → Bytes
chunk_of with_usage id stamp model delta reason =
    codes "data: {\"id\":\""
    ++ id
    ++ codes "\",\"object\":\"chat.completion.chunk\",\"created\":"
    ++ stamp
    ++ codes ",\"model\":\""
    ++ model
    ++ codes "\",\"choices\":[{\"index\":0,\"delta\":{"
    ++ delta
    ++ codes "},\"finish_reason\":"
    ++ reason_text reason
    ++ codes "}]"
    ++ usage_text with_usage
    ++ codes "}\n\n"

-- The chunk of the counts, whose `choices` is empty.
unfoldable pub usage_chunk_of : Bytes → Bytes → Bytes → Usage → Bytes
usage_chunk_of id stamp model u =
    codes "data: {\"id\":\""
    ++ id
    ++ codes "\",\"object\":\"chat.completion.chunk\",\"created\":"
    ++ stamp
    ++ codes ",\"model\":\""
    ++ model
    ++ codes "\",\"choices\":["
    ++ close [] (some u) false none
    ++ codes "\n\n"

abbrev pub role_delta : Bytes
role_delta = codes "\"role\":\"assistant\""

unfoldable pub content_delta : Bytes → Bytes
content_delta text = codes "\"content\":\"" ++ append_sanitized [] text ++ codes "\""

unfoldable pub tool_delta : ℕ → Bytes → Bytes → Bytes
tool_delta ord id name =
    codes "\"tool_calls\":[{\"index\":"
    ++ append_decimal [] ord
    ++ codes ",\"id\":\""
    ++ append_sanitized [] id
    ++ codes "\",\"type\":\"function\",\"function\":{\"name\":\""
    ++ append_sanitized [] name
    ++ codes "\",\"arguments\":\"\"}}]"

unfoldable pub arguments_delta : ℕ → Bytes → Bytes
arguments_delta ord frag =
    codes "\"tool_calls\":[{\"index\":"
    ++ append_decimal [] ord
    ++ codes ",\"function\":{\"arguments\":\""
    ++ append_sanitized [] frag
    ++ codes "\"}}]"

pub data IsReason : Bytes → Type 0 where
  is_stop : IsReason (codes "stop")
  is_length : IsReason (codes "length")
  is_tool_calls : IsReason (codes "tool_calls")
  is_content_filter : IsReason (codes "content_filter")

-- A stream with one stamp in every chunk: whether it gave the role, how many tool calls it opened,
-- whether it gave a finish reason, and whether it is closed.
pub data IsStream (with_usage : Bool) (stamp : Bytes)
    : Bool → ℕ → Bool → Bool → Bytes → Type 0 where
  nothing : IsStream with_usage stamp false 0 false false []
  role :
      {n : ℕ} {f : Bool} {b : Bytes} (id model : Bytes)
      → is_empty stamp ≡ false
      → IsStream with_usage stamp false n f false b
      → IsStream with_usage stamp true n f false
          (b ++ chunk_of with_usage id stamp model role_delta none)
  content :
      {n : ℕ} {f : Bool} {b : Bytes} (id model text : Bytes)
      → is_empty stamp ≡ false
      → IsStream with_usage stamp true n f false b
      → IsStream with_usage stamp true n f false
          (b ++ chunk_of with_usage id stamp model (content_delta text) none)
  tool :
      {n : ℕ} {f : Bool} {b : Bytes} (id model call name : Bytes)
      → is_empty stamp ≡ false
      → IsStream with_usage stamp true n f false b
      → IsStream with_usage stamp true
          (suc n)
          f
          false
          (b ++ chunk_of with_usage id stamp model (tool_delta n call name) none)
  arguments :
      {n : ℕ} {f : Bool} {b : Bytes} (id model : Bytes) (ord : ℕ) (frag : Bytes)
      → is_empty stamp ≡ false
      → ord < n
      → IsStream with_usage stamp true n f false b
      → IsStream with_usage stamp true n f false
          (b ++ chunk_of with_usage id stamp model (arguments_delta ord frag) none)
  finished :
      {r : Bool} {n : ℕ} {b : Bytes} (id model : Bytes) {reason : Bytes}
      → is_empty stamp ≡ false
      → IsReason reason
      → IsStream with_usage stamp r n false false b
      → IsStream with_usage stamp r n true false
          (b ++ chunk_of with_usage id stamp model [] (some reason))
  closed :
      {r : Bool} {n : ℕ} {b : Bytes} (id model : Bytes) (u : Usage)
      → is_empty stamp ≡ false
      → IsStream with_usage stamp r n true false b
      → IsStream with_usage stamp r n true true (
          b
          ++ (if with_usage then usage_chunk_of id stamp model u else [])
          ++ codes "data: [DONE]\n\n")

-- Nothing is written before the stamp.
pub unstamped-IsStream :
    (w : Bool) (stamp : Bytes) {r : Bool} {n : ℕ} {f d : Bool} {b : Bytes}
    → is_empty stamp ≡ true
    → IsStream w stamp r n f d b
    → (stamp' : Bytes) → IsStream w stamp' r n f d b
unstamped-IsStream w stamp e nothing stamp' = nothing
unstamped-IsStream w stamp e (role id model s m) stamp' = cc (e, s)
unstamped-IsStream w stamp e (content id model text s m) stamp' = cc (e, s)
unstamped-IsStream w stamp e (tool id model call name s m) stamp' = cc (e, s)
unstamped-IsStream w stamp e (arguments id model ord frag s h m) stamp' = cc (e, s)
unstamped-IsStream w stamp e (finished id model s i m) stamp' = cc (e, s)
unstamped-IsStream w stamp e (closed id model u s m) stamp' = cc (e, s)

-- A stream that opened a tool call gave the role before.
pub role-IsStream :
    (w : Bool) (stamp : Bytes) {r : Bool} {n : ℕ} {f d : Bool} {b : Bytes}
    → IsStream w stamp r n f d b
    → 0 < n
    → r ≡ true
role-IsStream w stamp nothing h = absurd (omega arith)
role-IsStream w stamp (role id model s m) h = refl
role-IsStream w stamp (content id model text s m) h = refl
role-IsStream w stamp (tool id model call name s m) h = refl
role-IsStream w stamp (arguments id model ord frag s i m) h = refl
role-IsStream w stamp (finished id model s i m) h = role-IsStream w stamp m h
role-IsStream w stamp (closed id model u s m) h = role-IsStream w stamp m h
