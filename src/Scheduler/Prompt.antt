-- ===== src/Scheduler/Prompt.antt =====
-- internal/scheduler/executor.go: the messages to the model of a node, and their size in words.
use Prim.Native.String.{◌++◌ as ◌++ˢ◌}
use nebula_flow.Prelude.{
  ℕ, suc, ◌+◌, String, Bool, true, false, ◌&&◌, ◌||◌, List, [], ◌∷◌, ◌++◌, string_eq, nat_eq, ◌==◌,
  if◌then◌else◌, leb,
}
use nebula_flow.Prelude.Text.{codes}

pub data Role : Type 0 where
  role_system role_user : Role

pub record Message : Type 0 where
  pub role : Role
  pub content : String

abbrev pub user_text : String → String → String
user_text prompt input =
    if prompt == ""
    then input
    else if input == ""
    then prompt
    else prompt ++ˢ "\n\n用户输入：\n" ++ˢ input

unfoldable pub build_llm_messages : String → String → String → List Message
build_llm_messages system prompt input =
    let user = user_text prompt input in
    let asked = if user == "" then "请根据你的能力作答。" else user in
    (if system == "" then [] else record { role = role_system; content = system } ∷ [])
    ++ record { role = role_user; content = asked } ∷ []

-- Unicode's white space, as `strings` takes it.
abbrev between : ℕ → ℕ → ℕ → Bool
between low high c = leb low c && leb c high

unfoldable pub is_space : ℕ → Bool
is_space c =
    between 9 13 c
    || (c == 32)
    || (c == 133)
    || (c == 160)
    || (c == 5760)
    || between 8192 8202 c
    || between 8232 8233 c
    || (c == 8239)
    || (c == 8287)
    || (c == 12288)

abbrev all_space : List ℕ → Bool
all_space [] = true
all_space (c ∷ cs) = is_space c && all_space cs

-- `strings.TrimSpace(s) == ""`.
unfoldable pub is_blank : String → Bool
is_blank s = all_space (codes s)

-- The number of `strings.Fields`; the flag is set within a field.
unfoldable pub fields : Bool → List ℕ → ℕ
fields inside [] = 0
fields inside (c ∷ cs) =
    let out = fields false cs in
    let within = fields true cs in if is_space c then out else if inside then within else suc within

unfoldable pub estimate_tokens : List Message → ℕ
estimate_tokens [] = 0
estimate_tokens (m ∷ ms) = fields false (codes m.content) + estimate_tokens ms
