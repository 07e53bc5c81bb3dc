-- ===== src/ModelManager.antt =====
-- include/infer_server/inference/model_manager.h (but `NpuCoreMask`) and
-- src/inference/model_manager.cpp: the loaded models and the contexts of the RKNN runtime. Every
-- method but `release_worker_context` holds the manager's mutex, so a call is one step. The runtime
-- and the file system are not code of this repository: what they answer to a call is an argument of
-- it, and the contexts that a call opens and destroys are part of what it comes to.
pub mod Branches
pub mod Contexts
use infer_server.Base.{
  ℕ, zero, suc, ◌+◌, ◌-◌, ◌^◌, String, Bool, true, false, List, [], ◌∷◌, ◌++◌, Option, none, some,
  map, length, take, ltb, ◌==◌, ◌>>=◌, if◌then◌else◌, String_discrete,
}
use infer_server.Base.Int.{ℤ, pos, negsuc}
use infer_server.Base.Dict.{Dict, find, insert, erase, contains}
use infer_server.PostProcessor.Yolo.{TensorAttr}

-- What the code reads of `rknn_tensor_attr`; `is_type_int8` is `type == RKNN_TENSOR_INT8`.
pub record RknnTensorAttr (F : Type 0) : Type 0 where
  pub n_dims : ℕ
  pub dims : List ℕ
  pub n_elems : ℕ
  pub is_type_int8 : Bool
  pub zp : ℤ
  pub scale : F

pub record RknnInputOutputNum : Type 0 where
  pub n_input : ℕ
  pub n_output : ℕ

pub record ModelInfo (F : Type 0) : Type 0 where
  pub model_path : String
  pub io_num : RknnInputOutputNum
  pub input_attrs : List (RknnTensorAttr F)
  pub output_attrs : List (RknnTensorAttr F)

-- `static_cast<int>` of a `uint32_t`.
unfoldable pub int_of_uint32 : ℕ → ℤ
int_of_uint32 n = if ltb n (2 ^ 31) then pos n else negsuc (2 ^ 32 - 1 - n)

-- One round of `ModelInfo::get_output_tensor_attrs`. `dims` holds at least `n_dims` numbers, which
-- the runtime sees to. `zp` and `scale` keep their defaults, 0 and `one`, if the type is another.
unfoldable pub tensor_attr : {F : Type 0} → F → RknnTensorAttr F → TensorAttr F
unfolding int_of_uint32
tensor_attr one a = record {
  n_elems = int_of_uint32 a.n_elems;
  dims = map int_of_uint32 (take a.n_dims a.dims);
  zp = if a.is_type_int8 then a.zp else pos 0;
  scale = if a.is_type_int8 then a.scale else one;
  is_int8 = a.is_type_int8;
}

unfoldable pub get_output_tensor_attrs : {F : Type 0} → F → ModelInfo F → List (TensorAttr F)
unfolding tensor_attr
get_output_tensor_attrs one info = map (tensor_attr one) info.output_attrs

pub record LoadedModel (F : Type 0) : Type 0 where
  pub master_ctx : ℕ
  pub info : ModelInfo F
  pub model_data : List ℕ

pub record ModelManager (F : Type 0) : Type 0 where
  pub models : Dict String (LoadedModel F)

-- What a call finds outside: the file's size if it opens, its bytes if they can be read, the context
-- if `rknn_init` succeeds, what the queries answer if they succeed, and whether
-- `rknn_set_core_mask` does.
pub record Runtime (F : Type 0) : Type 0 where
  pub file_size : Option ℤ
  pub read : Option (List ℕ)
  pub rknn_init : Option ℕ
  pub query_in_out_num : Option RknnInputOutputNum
  pub query_input_attr : ℕ → Option (RknnTensorAttr F)
  pub query_output_attr : ℕ → Option (RknnTensorAttr F)
  pub set_core_mask : Bool

-- What a call does at the runtime, in order: an `rknn_init` that succeeded, an `rknn_destroy`, an
-- `rknn_set_core_mask`.
pub data NativeCall : Type 0 where
  inits : (ctx : ℕ) → NativeCall
  destroys : (ctx : ℕ) → NativeCall
  sets_core_mask : (ctx core_mask : ℕ) → NativeCall

-- The calls at the core mask, whether they succeed or not. `NpuCoreMask::AUTO` is 0.
unfoldable pub bind_core : ℕ → ℕ → List NativeCall
bind_core ctx core_mask = if core_mask == 0 then [] else sets_core_mask ctx core_mask ∷ []

module _ {F : Type 0} where
  -- The loops of queries: `rounds` of them, from index `i` on, up to the first that fails.
  unfoldable pub query_attrs :
      (ℕ → Option (RknnTensorAttr F)) → ℕ → ℕ → Option (List (RknnTensorAttr F))
  query_attrs query i zero = some []
  query_attrs query i (suc rounds) = do
    attr ← query i
    attrs ← query_attrs query (suc i) rounds
    some (attr ∷ attrs)

  -- The queries of `load_model`.
  unfoldable pub query_info : String → Runtime F → Option (ModelInfo F)
  unfolding query_attrs
  query_info model_path w = do
    io_num ← w.query_in_out_num
    input_attrs ← query_attrs w.query_input_attr 0 io_num.n_input
    output_attrs ← query_attrs w.query_output_attr 0 io_num.n_output
    some (record {
      model_path = model_path;
      io_num = io_num;
      input_attrs = input_attrs;
      output_attrs = output_attrs;
    })

  -- The file's bytes, if it opens, is not empty, and can be read.
  unfoldable pub read_model : Runtime F → Option (List ℕ)
  read_model w = elim w.file_size [
    | none ↦ none
    | some (pos zero) ↦ none
    | some (negsuc n) ↦ none
    | some (pos (suc n)) ↦ w.read
  ]

  unfoldable pub is_loaded : String → ModelManager F → Bool
  unfolding contains
  is_loaded model_path m = contains String_discrete model_path m.models

  unfoldable pub find_model : String → ModelManager F → Option (LoadedModel F)
  unfolding find
  find_model model_path m = find String_discrete model_path m.models

  -- What follows a successful `rknn_init`: queries, and on failure `rknn_destroy`.
  unfoldable pub store_model :
      String → Runtime F → List ℕ → ℕ → ModelManager F → (ModelManager F × Bool) × List NativeCall
  unfolding query_info insert
  store_model model_path w model_data ctx m = elim (query_info model_path w) [
    | none ↦ ((m, false), inits ctx ∷ destroys ctx ∷ [])
    | some info ↦
        let loaded : LoadedModel F = record {
          master_ctx = ctx;
          info = info;
          model_data = model_data;
        } in
        (
          (record { models = insert String_discrete model_path loaded m.models }, true),
          inits ctx ∷ [],
        )
  ]

  unfoldable pub load_model :
      String → Runtime F → ModelManager F → (ModelManager F × Bool) × List NativeCall
  unfolding is_loaded read_model store_model
  load_model model_path w m =
      if is_loaded model_path m then ((m, true), []) else elim (read_model w) [
        | none ↦ ((m, false), [])
        | some model_data ↦ elim w.rknn_init [
          | none ↦ ((m, false), [])
          | some ctx ↦ store_model model_path w model_data ctx m
        ]
      ]

  -- A context of its own for a worker, 0 if there is none.
  unfoldable pub create_worker_context :
      String → ℕ → Runtime F → ModelManager F → ℕ × List NativeCall
  unfolding find_model bind_core
  create_worker_context model_path core_mask w m = elim (find_model model_path m) [
    | none ↦ (0, [])
    | some loaded ↦ elim w.rknn_init [
      | none ↦ (0, [])
      | some ctx ↦ (ctx, inits ctx ∷ bind_core ctx core_mask)
    ]
  ]

  unfoldable pub get_model_info : String → ModelManager F → Option (ModelInfo F)
  unfolding find_model
  get_model_info model_path m = elim (find_model model_path m) [
    | none ↦ none
    | some loaded ↦ some loaded.info
  ]

  unfoldable pub unload_model : String → ModelManager F → ModelManager F × List NativeCall
  unfolding find_model erase
  unload_model model_path m = elim (find_model model_path m) [
    | none ↦ (m, [])
    | some loaded ↦ (
      record { models = erase String_discrete model_path m.models },
      destroys loaded.master_ctx ∷ [],
    )
  ]

  unfoldable pub destroy_masters : Dict String (LoadedModel F) → List NativeCall
  destroy_masters [] = []
  destroy_masters ((path, loaded) ∷ models) = destroys loaded.master_ctx ∷ destroy_masters models

  -- Also the destructor.
  unfoldable pub unload_all : ModelManager F → ModelManager F × List NativeCall
  unfolding destroy_masters
  unload_all m = (record { models = [] }, destroy_masters m.models)

  pub loaded_count : ModelManager F → ℕ
  loaded_count m = length m.models

unfoldable pub release_worker_context : ℕ → List NativeCall
release_worker_context zero = []
release_worker_context (suc ctx) = destroys (suc ctx) ∷ []
