-- ===== src/Core/Memory/Layers.antt =====
-- The four layers are independent of each other.
use cautreo.Base.{
  ◌≡◌, ◌≢◌, refl, ap, Bool, ◌&&◌, ◌||◌, [], ◌∷◌, ◌++◌, some, length, ltb, ◌==◌, if◌then◌else◌,
  arith,
}
use cautreo.Core.Contracts.{MemoryLayer, mem_episodic, mem_pattern, mem_rule, mem_counterexample}
use cautreo.Core.Memory.{
  MemoryPattern, LayerStore, Memory, layer_create, layer_add, layer_of, with_layer, add_to,
  memory_write, memory_count, memory_clear, initial_capacity,
}

layer_add-patterns :
    {F : Type 0} (grown : Bool) (l : LayerStore F) (p : MemoryPattern F)
    → let (l', ok) = layer_add grown l p in
      (l'.patterns ≡ (if ok then l.patterns ++ (p ∷ []) else l.patterns))
      × (ok ≡ ltb (length l.patterns) l.capacity || grown)
unfolding layer_add
layer_add-patterns grown l p = (ground arith, ground arith)

module _ {F : Type 0} (m : Memory F) where
  layer_of-with_layer :
      (layer : MemoryLayer) (l : LayerStore F) → layer_of (with_layer m layer l) layer ≡ l
  unfolding layer_of with_layer
  layer_of-with_layer mem_episodic l = refl
  layer_of-with_layer mem_pattern l = refl
  layer_of-with_layer mem_rule l = refl
  layer_of-with_layer mem_counterexample l = refl

  layer_of-with_layer_ne :
      (layer other : MemoryLayer) (l : LayerStore F)
      → other ≢ layer
      → layer_of (with_layer m layer l) other ≡ layer_of m other
  unfolding layer_of with_layer
  layer_of-with_layer_ne mem_episodic mem_episodic l ne = absurd (ne refl)
  layer_of-with_layer_ne mem_episodic mem_pattern l ne = refl
  layer_of-with_layer_ne mem_episodic mem_rule l ne = refl
  layer_of-with_layer_ne mem_episodic mem_counterexample l ne = refl
  layer_of-with_layer_ne mem_pattern mem_episodic l ne = refl
  layer_of-with_layer_ne mem_pattern mem_pattern l ne = absurd (ne refl)
  layer_of-with_layer_ne mem_pattern mem_rule l ne = refl
  layer_of-with_layer_ne mem_pattern mem_counterexample l ne = refl
  layer_of-with_layer_ne mem_rule mem_episodic l ne = refl
  layer_of-with_layer_ne mem_rule mem_pattern l ne = refl
  layer_of-with_layer_ne mem_rule mem_rule l ne = absurd (ne refl)
  layer_of-with_layer_ne mem_rule mem_counterexample l ne = refl
  layer_of-with_layer_ne mem_counterexample mem_episodic l ne = refl
  layer_of-with_layer_ne mem_counterexample mem_pattern l ne = refl
  layer_of-with_layer_ne mem_counterexample mem_rule l ne = refl
  layer_of-with_layer_ne mem_counterexample mem_counterexample l ne = absurd (ne refl)

  -- A write succeeds exactly when the pattern has the dimension of the memory and there is room or the
  -- array can grow; the pattern then stands last in its layer, and otherwise the layer is as it was.
  -- The other layers do not change, and clearing a layer empties it and leaves the others.
  pub memory_write-layer_of :
      (grown : Bool) (layer other : MemoryLayer) (p : MemoryPattern F)
      → let (m', ok) = memory_write grown m layer (some p) in
        let old = layer_of m layer in
        (ok ≡ (p.dim == m.dim) && (ltb (length old.patterns) old.capacity || grown))
        × ((layer_of m' layer).patterns ≡ (if ok then old.patterns ++ (p ∷ []) else old.patterns))
        × (memory_count (memory_clear m layer) layer ≡ 0)
        × (other ≢ layer
            → (layer_of m' other ≡ layer_of m other)
              × (layer_of (memory_clear m layer) other ≡ layer_of m other))
  unfolding memory_write add_to memory_clear memory_count layer_create
  memory_write-layer_of grown layer other p =
      let (patterns, ok) = layer_add-patterns grown (layer_of m layer) p in
      let same = layer_of-with_layer layer (layer_add grown (layer_of m layer) p).0 in
      (
        ground (arith, ok),
        ground (arith, patterns, same),
        ap (λ l. length l.patterns)
            (layer_of-with_layer layer (layer_create (initial_capacity layer))),
        λ ne. (
          let e = layer_of-with_layer_ne layer other (layer_add grown (layer_of m layer) p).0 ne in
              ground (arith, e),
          layer_of-with_layer_ne layer other _ ne,
        ),
      )
