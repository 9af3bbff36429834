-- ===== src/Arch.antt =====
-- arch/arch.c: the registry of architectures, with the three built in. Its two global variables are the
-- record Registry, which each function takes and returns. What a table of operations does is not
-- modelled; only that it has `create` and `forward` is.
pub mod Lookups
mod Tests
use cautreo.Base.{
  ℕ, zero, suc, Bool, true, false, not, ◌&&◌, ◌||◌, Option, none, some, List, [], ◌∷◌, ◌++◌, length,
  leb, ◌==◌, if◌then◌else◌,
}
use cautreo.Base.Bytes.{bytes_eq}

pub record ArchOps : Type 0 where
  pub id : ℕ
  pub name : Option (List ℕ)
  pub gguf_arch_names : Option (List (List ℕ))
  pub has_create : Bool
  pub has_forward : Bool

pub record Registry : Type 0 where
  pub registered : List ArchOps
  pub builtins_loaded : Bool

abbrev pub max_registered : ℕ
max_registered = 16

abbrev pub is_named : Option (List ℕ) → Bool
is_named none = false
is_named (some s) = true

unfoldable pub has_id : ℕ → List ArchOps → Bool
has_id id [] = false
has_id id (o ∷ os) = (o.id == id) || has_id id os

-- The table has what a registration asks for.
abbrev pub is_complete : ArchOps → Bool
is_complete o = is_named o.name && (o.has_create && o.has_forward)

unfoldable pub arch_register : Registry → Option ArchOps → Registry × Bool
arch_register r none = (r, false)
arch_register r (some o) =
    if not (is_complete o)
    then (r, false)
    else if leb max_registered (length r.registered)
    then (r, false)
    else if has_id o.id r.registered
    then (r, false)
    else (record r { registered = r.registered ++ (o ∷ []) }, true)

-- "deepseek4".
abbrev pub deepseek4_ops : ArchOps
deepseek4_ops = record {
  id = 1;
  name = some (b'd' ∷ b'e' ∷ b'e' ∷ b'p' ∷ b's' ∷ b'e' ∷ b'e' ∷ b'k' ∷ b'4' ∷ []);
  gguf_arch_names = some ((b'd' ∷ b'e' ∷ b'e' ∷ b'p' ∷ b's' ∷ b'e' ∷ b'e' ∷ b'k' ∷ b'4' ∷ []) ∷ []);
  has_create = true;
  has_forward = true;
}

-- "kimi_k3" and "moonshot".
abbrev pub kimi_k3_ops : ArchOps
kimi_k3_ops = record {
  id = 2;
  name = some (b'k' ∷ b'i' ∷ b'm' ∷ b'i' ∷ b'_' ∷ b'k' ∷ b'3' ∷ []);
  gguf_arch_names = some (
      (b'k' ∷ b'i' ∷ b'm' ∷ b'i' ∷ b'_' ∷ b'k' ∷ b'3' ∷ [])
      ∷ (b'm' ∷ b'o' ∷ b'o' ∷ b'n' ∷ b's' ∷ b'h' ∷ b'o' ∷ b't' ∷ [])
      ∷ []);
  has_create = true;
  has_forward = true;
}

-- "glm_5_2", "glm" and "chatglm".
abbrev pub glm_5_2_ops : ArchOps
glm_5_2_ops = record {
  id = 3;
  name = some (b'g' ∷ b'l' ∷ b'm' ∷ b'_' ∷ b'5' ∷ b'_' ∷ b'2' ∷ []);
  gguf_arch_names = some (
      (b'g' ∷ b'l' ∷ b'm' ∷ b'_' ∷ b'5' ∷ b'_' ∷ b'2' ∷ [])
      ∷ (b'g' ∷ b'l' ∷ b'm' ∷ [])
      ∷ (b'c' ∷ b'h' ∷ b'a' ∷ b't' ∷ b'g' ∷ b'l' ∷ b'm' ∷ [])
      ∷ []);
  has_create = true;
  has_forward = true;
}

unfoldable pub register_builtins : Registry → Registry
register_builtins r =
    let loaded : Registry = record r { builtins_loaded = true } in
    let one = (arch_register loaded (some deepseek4_ops)).0 in
    let two = (arch_register one (some kimi_k3_ops)).0 in
    if r.builtins_loaded then r else (arch_register two (some glm_5_2_ops)).0

unfoldable pub has_arch_name : List (List ℕ) → List ℕ → Bool
has_arch_name [] name = false
has_arch_name (n ∷ ns) name = bytes_eq n name || has_arch_name ns name

unfoldable pub answers_to : ArchOps → List ℕ → Bool
answers_to o name = elim o.gguf_arch_names [ none ↦ false | some names ↦ has_arch_name names name ]

unfoldable pub detect_loop : List ArchOps → List ℕ → Option ArchOps
detect_loop [] name = none
detect_loop (o ∷ os) name = if answers_to o name then some o else detect_loop os name

unfoldable pub arch_detect : Registry → Option (List ℕ) → Registry × Option ArchOps
arch_detect r none = (r, none)
arch_detect r (some name) =
    let loaded = register_builtins r in (loaded, detect_loop loaded.registered name)

unfoldable pub find_id : ℕ → List ArchOps → Option ArchOps
find_id id [] = none
find_id id (o ∷ os) = if o.id == id then some o else find_id id os

unfoldable pub arch_by_id : Registry → ℕ → Registry × Option ArchOps
arch_by_id r id = let loaded = register_builtins r in (loaded, find_id id loaded.registered)

unfoldable pub arch_count : Registry → Registry × ℕ
arch_count r = let loaded = register_builtins r in (loaded, length loaded.registered)
