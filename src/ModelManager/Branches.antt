-- ===== src/ModelManager/Branches.antt =====
-- What each operation of the model manager comes to on each of its branches.
use infer_server.Base.{◌≡◌, refl, true, false, ℕ, String, List, [], ◌∷◌, none, some}
use infer_server.Base.Dict.{insert, erase}
use infer_server.Base.{String_discrete}
use infer_server.ModelManager.{
  ModelManager, LoadedModel, ModelInfo, Runtime, inits, destroys, load_model, is_loaded, read_model,
  store_model, query_info, find_model, create_worker_context, unload_model, bind_core,
}

module _ {F : Type 0} (model_path : String) (w : Runtime F) (m : ModelManager F) where
  abbrev pub stored : List ℕ → ℕ → ModelInfo F → ModelManager F
  stored model_data ctx info = record {
    models =
        insert String_discrete model_path
          (record { master_ctx = ctx; info = info; model_data = model_data }) m.models;
  }

  pub load_model-loaded :
      is_loaded model_path m ≡ true → load_model model_path w m ≡ ((m, true), [])
  unfolding load_model
  load_model-loaded e = rw (load_model, e) refl

  pub load_model-unread :
      is_loaded model_path m ≡ false
      → read_model w ≡ none
      → load_model model_path w m ≡ ((m, false), [])
  unfolding load_model
  load_model-unread e r = rw (load_model, e, r) refl

  pub load_model-uninit :
      {model_data : List ℕ}
      → is_loaded model_path m ≡ false
      → read_model w ≡ some model_data
      → w.rknn_init ≡ none
      → load_model model_path w m ≡ ((m, false), [])
  unfolding load_model
  load_model-uninit e r i = rw (load_model, e, r, i) refl

  pub load_model-unqueried :
      {model_data : List ℕ} {ctx : ℕ}
      → is_loaded model_path m ≡ false
      → read_model w ≡ some model_data
      → w.rknn_init ≡ some ctx
      → query_info model_path w ≡ none
      → load_model model_path w m ≡ ((m, false), inits ctx ∷ destroys ctx ∷ [])
  unfolding load_model store_model
  load_model-unqueried e r i q = rw (load_model, e, r, i, store_model, q) refl

  pub load_model-stored :
      {model_data : List ℕ} {ctx : ℕ} {info : ModelInfo F}
      → is_loaded model_path m ≡ false
      → read_model w ≡ some model_data
      → w.rknn_init ≡ some ctx
      → query_info model_path w ≡ some info
      → load_model model_path w m ≡ ((stored model_data ctx info, true), inits ctx ∷ [])
  unfolding load_model store_model
  load_model-stored e r i q = rw (load_model, e, r, i, store_model, q) refl

  pub create_worker_context-missing :
      (mask : ℕ)
      → find_model model_path m ≡ none
      → create_worker_context model_path mask w m ≡ (0, [])
  unfolding create_worker_context
  create_worker_context-missing mask e = rw (create_worker_context, e) refl

  pub create_worker_context-uninit :
      (mask : ℕ) {loaded : LoadedModel F}
      → find_model model_path m ≡ some loaded
      → w.rknn_init ≡ none
      → create_worker_context model_path mask w m ≡ (0, [])
  unfolding create_worker_context
  create_worker_context-uninit mask e i = rw (create_worker_context, e, i) refl

  pub create_worker_context-made :
      (mask : ℕ) {loaded : LoadedModel F} {ctx : ℕ}
      → find_model model_path m ≡ some loaded
      → w.rknn_init ≡ some ctx
      → create_worker_context model_path mask w m ≡ (ctx, inits ctx ∷ bind_core ctx mask)
  unfolding create_worker_context
  create_worker_context-made mask e i = rw (create_worker_context, e, i) refl

module _ {F : Type 0} (model_path : String) (m : ModelManager F) where
  pub unload_model-missing : find_model model_path m ≡ none → unload_model model_path m ≡ (m, [])
  unfolding unload_model
  unload_model-missing e = rw (unload_model, e) refl

  pub unload_model-there :
      (loaded : LoadedModel F)
      → find_model model_path m ≡ some loaded
      → unload_model model_path m ≡ (
        record { models = erase String_discrete model_path m.models },
        destroys loaded.master_ctx ∷ [],
      )
  unfolding unload_model
  unload_model-there loaded e = rw (unload_model, e) refl
