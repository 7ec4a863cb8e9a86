-- ===== src/Worker/Adopt.antt =====
-- What a worker installs: `_adopt_global`, `_adopt_fragment` and `_apply_dylu`.
pub mod Installs
use panofabric_engine.Prelude.{
  ℕ, ◌*◌, ◌/◌, ◌+◌, ◌≡◌, String, Bool, true, false, Option, none, some, List, [], ◌∷◌, ltb, ◌==◌,
  ◌&&◌, not, max, string_eq, if◌then◌else◌, take, drop,
}
use panofabric_engine.Prelude.Dict.{Dict, lookup, insert}
use panofabric_engine.Diloco.Server.{Params}
use panofabric_engine.Worker.{Answer, Worker, value, names_of, numels_of}

-- What `p.detach().cpu()` gives: the parameter's own storage, for a model on the CPU, or a copy.
pub data Detached (F : Type 0) : Type 0 where
  shared : Detached F
  copied : List F → Detached F

-- A recommendation in whole windows of the fragments.
abbrev pub rounded : ℕ → ℕ → ℕ
rounded num_fragments new_steps =
    if ltb 0 new_steps && ltb 1 num_fragments
    then max num_fragments (new_steps / num_fragments * num_fragments)
    else new_steps

module _ {F : Type 0} where
  abbrev pub detach_cpu : Bool → List F → Detached F
  detach_cpu true p = shared
  detach_cpu false p = copied p

  -- What a detached tensor holds when the parameter holds the given one.
  abbrev pub read_detached : Detached F → List F → List F
  read_detached shared now = now
  read_detached (copied p) now = p

  -- The flat buffer cut into the parameters' parts, in wire order.
  unfoldable pub chunks : List String → List ℕ → List F → Params F
  chunks [] numels flat = []
  chunks (name ∷ names) [] flat = []
  chunks (name ∷ names) (n ∷ numels) flat = (name, take n flat) ∷ chunks names numels (drop n flat)

  -- `_apply_dylu`; none is 0.
  unfoldable pub apply_dylu : Worker F → ℕ → Worker F
  apply_dylu w new_steps =
      let steps = rounded w.num_fragments new_steps in
      record w { sync_every = if ltb 0 steps then steps else w.sync_every }

  -- `self._inner_optimizer.state.clear()`
  abbrev pub clear_inner : Bool → Worker F → Worker F
  clear_inner due w = record w {
    inner_state = if w.reset_inner_state && due then [] else w.inner_state;
  }

  -- `blend_local[name]`, where there is such a dict.
  abbrev pub kept_of : Option (Dict String (Detached F)) → String → Option (Detached F)
  kept_of none name = none
  kept_of (some d) name = lookup name d

-- `lerp` moves its first tensor towards its second by `fragment_update_alpha`.
module _ {F : Type 0} (lerp : List F → List F → List F) where
  -- What a parameter holds: the part of the buffer is copied in, and is then blended.
  abbrev pub blended : Option (Detached F) → List F → List F
  blended none chunk = chunk
  blended (some d) chunk = lerp chunk (read_detached d chunk)

  -- The loop over the parameters; `local` is what each is blended with.
  unfoldable pub install :
      (String → Option (Detached F)) → Params F → Params F × Params F → Params F × Params F
  unfolding insert
  install local [] (globals, model) = (globals, model)
  install local ((name, chunk) ∷ parts) (globals, model) =
      install local parts
        (insert name chunk globals, insert name (blended (local name) chunk) model)

  abbrev pub installed : Worker F → Params F × Params F → Worker F
  installed w (globals, model) = record w { global_params = globals; model = model }

  abbrev pub installed_global : Worker F → Answer F → Option (Dict String (Detached F)) → Worker F
  installed_global w a blend_local =
      let w' = installed w (
        install (kept_of blend_local) (chunks w.param_names w.param_numels a.flat_params)
          (w.global_params, w.model)) in
      clear_inner true (record w' { baseline_revision = a.revision; have_baseline = true })

  -- `_adopt_global`; `blend_local` is what `_sync` kept of the local parameters, if anything.
  unfoldable pub adopt_global : Worker F → Answer F → Option (Dict String (Detached F)) → Worker F
  unfolding install chunks apply_dylu lookup
  adopt_global w a blend_local = apply_dylu (installed_global w a blend_local) a.new_steps

  -- The local values are cloned when this runs.
  abbrev pub cloned : Worker F → String → Option (Detached F)
  cloned w name = if w.blends then some (copied (value w.model name)) else none

  abbrev pub installed_fragment : Worker F → ℕ → Answer F → Worker F
  installed_fragment w fragment a =
      let w' = installed w (
        install (cloned w)
          (chunks (names_of w (some fragment)) (numels_of w (some fragment)) a.flat_params)
          (w.global_params, w.model)) in
      clear_inner (fragment + 1 == w.num_fragments) (record w' { baseline_revision = a.revision })

  -- `_adopt_fragment`
  unfoldable pub adopt_fragment : Worker F → ℕ → Answer F → Worker F
  unfolding install chunks apply_dylu lookup
  adopt_fragment w fragment a = apply_dylu (installed_fragment w fragment a) a.new_steps
