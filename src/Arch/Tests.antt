-- ===== src/Arch/Tests.antt =====
-- The theorem about the registry at a few calls, and runs of its functions.
use cautreo.Arch.Lookups.{Call, calls, registers, empty_registry, counts, arch_by_id-registered}
use cautreo.Arch.{
  ArchOps, arch_register, kimi_k3_ops, arch_count, register_builtins, max_registered, has_id,
  is_complete, deepseek4_ops, arch_by_id, arch_detect, glm_5_2_ops, detect_loop, answers_to,
  has_arch_name,
}
use cautreo.Base.Bytes.{bytes_eq}
use cautreo.Base.{true, none, some, [], ◌∷◌, ◌≤◌, refl, arith, ◌≡◌, length, List}

-- A table under the number of a built-in one, registered first.
abbrev own_kimi : ArchOps
own_kimi = record kimi_k3_ops { gguf_arch_names = none }

abbrev own_calls : List Call
own_calls = registers (some own_kimi) ∷ counts ∷ []

own_registered :
    (calls own_calls empty_registry).registered ≡ own_kimi ∷ deepseek4_ops ∷ glm_5_2_ops ∷ []
unfolding arch_register arch_count register_builtins has_id
own_registered = refl

arch_by_id-registered_example :
    (length (calls own_calls empty_registry).registered ≤ max_registered)
    × (is_complete own_kimi ≡ true)
    × ((arch_by_id (calls (registers (some kimi_k3_ops) ∷ []) (calls own_calls empty_registry)) 2).1
        ≡ some own_kimi)
arch_by_id-registered_example =
    arch_by_id-registered own_calls (registers (some kimi_k3_ops) ∷ []) 0 own_kimi
      (ground (arith, own_registered))

-- The name of a built-in architecture whose number is taken is not found.
moonshot_lost :
    (arch_detect
      (calls own_calls empty_registry)
      (some (b'm' ∷ b'o' ∷ b'o' ∷ b'n' ∷ b's' ∷ b'h' ∷ b'o' ∷ b't' ∷ []))).1
    ≡ none
unfolding arch_register arch_count register_builtins has_id arch_detect detect_loop answers_to
    has_arch_name bytes_eq
moonshot_lost = refl
