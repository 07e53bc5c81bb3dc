-- ===== src/ModelManager/Contexts.antt =====
-- The contexts of the runtime: how often one is opened and destroyed, and who holds it.
use infer_server.Base.{
  ℕ, zero, suc, ◌+◌, ◌≡◌, ◌≢◌, refl, false, inl, inr, String, List, [], ◌∷◌, ◌++◌, none, ◌==◌,
  if◌then◌else◌, arith, Option-cases, Bool-cases, String_discrete,
}
use infer_server.Base.Dict.{Dict, sum_by, sum_by-insert_new, sum_by-erase, contains}
use infer_server.ModelManager.{
  ModelManager, LoadedModel, ModelInfo, Runtime, NativeCall, inits, destroys, sets_core_mask,
  load_model, is_loaded, read_model, query_info, find_model, create_worker_context, unload_model,
  bind_core, unload_all, destroy_masters, release_worker_context,
}
use infer_server.ModelManager.Branches.{
  load_model-loaded, load_model-unread, load_model-uninit, load_model-unqueried, load_model-stored,
  create_worker_context-missing, create_worker_context-uninit, create_worker_context-made,
  unload_model-missing, unload_model-there, stored,
}

abbrev pub hits : ℕ → ℕ → ℕ
hits c d = if c == d then 1 else 0

-- How often the calls open the context, and how often they destroy it.
abbrev pub opened : ℕ → List NativeCall → ℕ
opened c [] = 0
opened c (inits d ∷ calls) = hits c d + opened c calls
opened c (_ ∷ calls) = opened c calls

abbrev pub closed : ℕ → List NativeCall → ℕ
closed c [] = 0
closed c (destroys d ∷ calls) = hits c d + closed c calls
closed c (_ ∷ calls) = closed c calls

pub opened-append :
    (c : ℕ) (xs ys : List NativeCall) → opened c (xs ++ ys) ≡ opened c xs + opened c ys
opened-append c [] ys = omega arith
opened-append c (inits d ∷ xs) ys = omega (arith, opened-append c xs ys)
opened-append c (destroys d ∷ xs) ys = opened-append c xs ys
opened-append c (sets_core_mask d k ∷ xs) ys = opened-append c xs ys

pub closed-append :
    (c : ℕ) (xs ys : List NativeCall) → closed c (xs ++ ys) ≡ closed c xs + closed c ys
closed-append c [] ys = omega arith
closed-append c (inits d ∷ xs) ys = closed-append c xs ys
closed-append c (destroys d ∷ xs) ys = omega (arith, closed-append c xs ys)
closed-append c (sets_core_mask d k ∷ xs) ys = closed-append c xs ys

-- What is opened or held before is destroyed or held after.
abbrev pub Balanced : ℕ → List NativeCall → ℕ → ℕ → Type 0
Balanced c calls before after = opened c calls + before ≡ closed c calls + after

pub Balanced-nil : (c n : ℕ) → Balanced c [] n n
Balanced-nil c n = refl

pub Balanced-append :
    (c : ℕ) (xs ys : List NativeCall) (i j k : ℕ)
    → Balanced c xs i j
    → Balanced c ys j k
    → Balanced c (xs ++ ys) i k
Balanced-append c xs ys i j k h h' = omega (arith, opened-append c xs ys, closed-append c xs ys)

made-Balanced : (c ctx mask : ℕ) → Balanced c (inits ctx ∷ bind_core ctx mask) 0 (hits c ctx)
unfolding bind_core
made-Balanced c ctx mask = elim (Bool-cases (mask == 0)) [
  | inl e ↦ rw e (omega arith)
  | inr e ↦ rw e (omega arith)
]

pub release_worker_context-Balanced :
    (c ctx : ℕ) → c ≢ 0 → Balanced c (release_worker_context ctx) (hits c ctx) 0
unfolding release_worker_context
release_worker_context-Balanced c zero nz = ground arith
release_worker_context-Balanced c (suc ctx) nz = omega arith

module _ {F : Type 0} (c : ℕ) where
  -- How many of the loaded models hold the context.
  unfoldable pub held_masters : ModelManager F → ℕ
  held_masters m = sum_by (λ (loaded : LoadedModel F). hits c loaded.master_ctx) m.models

  is_loaded-missing :
      (path : String) (m : ModelManager F) → is_loaded path m ≡ false → find_model path m ≡ none
  unfolding is_loaded contains find_model
  is_loaded-missing path m e = ground arith

  stored-Balanced :
      (path : String) (w : Runtime F) (m : ModelManager F) (bytes : List ℕ) (ctx : ℕ)
      (info : ModelInfo F)
      → is_loaded path m ≡ false
      → Balanced c (inits ctx ∷ []) (held_masters m) (held_masters (stored path w m bytes ctx info))
  unfolding held_masters find_model
  stored-Balanced path w m bytes ctx info e =
      let loaded : LoadedModel F = record { master_ctx = ctx; info = info; model_data = bytes } in
      omega (
        arith,
        sum_by-insert_new String_discrete (λ (l : LoadedModel F). hits c l.master_ctx) path loaded
            m.models (is_loaded-missing path m e),
      )

  pub load_model-Balanced :
      (path : String) (w : Runtime F) (m : ModelManager F)
      → Balanced c (load_model path w m).1 (held_masters m) (held_masters (load_model path w m).0.0)
  load_model-Balanced path w m = elim (Bool-cases (is_loaded path m)) [
    | inl e ↦ rw (load_model-loaded path w m e) refl
    | inr e ↦ elim (Option-cases (read_model w)) [
      | inl r ↦ rw (load_model-unread path w m e r) refl
      | inr (bytes, r) ↦ elim (Option-cases w.rknn_init) [
        | inl i ↦ rw (load_model-uninit path w m e r i) refl
        | inr (ctx, i) ↦ elim (Option-cases (query_info path w)) [
          | inl q ↦ rw (load_model-unqueried path w m e r i q) (omega arith)
          | inr (info, q) ↦
              rw (load_model-stored path w m e r i q) (stored-Balanced path w m bytes ctx info e)
        ]
      ]
    ]
  ]

  pub create_worker_context-Balanced :
      (path : String) (mask : ℕ) (w : Runtime F) (m : ModelManager F)
      → c ≢ 0
      → Balanced c
          (create_worker_context path mask w m).1
          0
          (hits c (create_worker_context path mask w m).0)
  create_worker_context-Balanced path mask w m nz = elim (Option-cases (find_model path m)) [
    | inl e ↦ rw (create_worker_context-missing path w m mask e) (ground arith)
    | inr (loaded, e) ↦ elim (Option-cases w.rknn_init) [
      | inl i ↦ rw (create_worker_context-uninit path w m mask e i) (ground arith)
      | inr (ctx, i) ↦ rw (create_worker_context-made path w m mask e i) (made-Balanced c ctx mask)
    ]
  ]

  pub unload_model-Balanced :
      (path : String) (m : ModelManager F)
      → Balanced c (unload_model path m).1 (held_masters m) (held_masters (unload_model path m).0)
  unfolding held_masters find_model
  unload_model-Balanced path m = elim (Option-cases (find_model path m)) [
    | inl e ↦ rw (unload_model-missing path m e) refl
    | inr (loaded, e) ↦ rw (unload_model-there path m loaded e) (
        omega (
          arith,
          sum_by-erase String_discrete (λ (l : LoadedModel F). hits c l.master_ctx) path m.models e,
        ))
  ]

  destroy_masters-Balanced :
      (models : Dict String (LoadedModel F))
      → Balanced c
          (destroy_masters models)
          (sum_by (λ (l : LoadedModel F). hits c l.master_ctx) models)
          0
  unfolding destroy_masters sum_by
  destroy_masters-Balanced [] = refl
  destroy_masters-Balanced ((path, loaded) ∷ models) =
      omega (arith, destroy_masters-Balanced models)

  pub unload_all-Balanced :
      (m : ModelManager F)
      → Balanced c (unload_all m).1 (held_masters m) (held_masters (unload_all m).0)
  unfolding held_masters unload_all sum_by
  unload_all-Balanced m = destroy_masters-Balanced m.models
