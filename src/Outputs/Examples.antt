-- ===== src/Outputs/Examples.antt =====
-- Two models of a task, saved and refused.
use substra_backend.Prelude.{
  ltb, List, true, false, ◌==◌, ◌≡◌, refl, none, some, [], ◌∷◌, if◌then◌else◌,
}
use substra_backend.Store.{get?, save, exists}
use substra_backend.Outputs.{
  OutputResource, NewModel, raises, gives, storage_error, os_error, State, Calls,
  save_model_to_local_storage, save_model_files, posts, add_models_from_path, save_models,
}
use substra_backend.Outputs.Rollback.{are_new, RolledBack, save_models-RolledBack}

abbrev first : OutputResource
first = record { identifier = 1; rel_path = 10; new_key = 5 }

abbrev second : OutputResource
second = record { identifier = 2; rel_path = 20; new_key = 6 }

abbrev made : State
made = record {
  rows = record { key = 4; file = some 30; checksum = some 31 } ∷ [];
  registered = [];
  in_api = [];
  files = λ path. if path == 10 then some 70 else if path == 20 then some 80 else none;
  buffer = [];
}

abbrev refusing : Calls
refusing = record {
  get_hash = λ content. content;
  save_fails = λ o. false;
  register_refuses = λ ms. true;
  post_fails = λ attempt. false;
}

abbrev models : List NewModel
models =
    record { key = 5; compute_task_output_identifier = 1; checksum = 70 }
    ∷ record { key = 6; compute_task_output_identifier = 2; checksum = 80 }
    ∷ []

abbrev with_both : State
with_both = record {
  rows =
      record { key = 4; file = some 30; checksum = some 31 }
      ∷ record { key = 5; file = some 70; checksum = some 70 }
      ∷ record { key = 6; file = some 80; checksum = some 80 }
      ∷ [];
  registered = [];
  in_api = [];
  files = λ path. if path == 10 then some 70 else if path == 20 then some 80 else none;
  buffer = [];
}

both_saved : save_model_files refusing (first ∷ second ∷ []) made ≡ (with_both, gives models)
unfolding save_model_files save_model_to_local_storage save
both_saved = refl

none_there : are_new (first ∷ second ∷ []) made.rows ≡ true
unfolding exists get?
none_there = refl

save_models-RolledBack_example :
    RolledBack refusing made (save_models refusing (first ∷ second ∷ []) made)
save_models-RolledBack_example =
    save_models-RolledBack refusing (first ∷ second ∷ []) made with_both models refl none_there
      both_saved refl

-- The storage refuses the second file: the rows of both models stay, the second without a file.
abbrev failing : Calls
failing = record {
  get_hash = λ content. content;
  save_fails = λ o. o.new_key == 6;
  register_refuses = λ ms. false;
  post_fails = λ attempt. false;
}

leftover : save_models failing (first ∷ second ∷ []) made ≡ (
  record {
    rows =
        record { key = 4; file = some 30; checksum = some 31 }
        ∷ record { key = 5; file = some 70; checksum = some 70 }
        ∷ record { key = 6; file = none; checksum = some 80 }
        ∷ [];
    registered = [];
    in_api = [];
    files = made.files;
    buffer = [];
  },
  raises storage_error,
)
unfolding save_models save_model_files save_model_to_local_storage save
leftover = refl

-- The API answers at the third attempt, and both models get to the buffer.
abbrev working : Calls
working = record {
  get_hash = λ content. content;
  save_fails = λ o. false;
  register_refuses = λ ms. false;
  post_fails = λ attempt. ltb attempt 2;
}

buffered : (save_models working (first ∷ second ∷ []) made).0.buffer ≡ (6, 80) ∷ (5, 70) ∷ []
unfolding save_models save_model_files save_model_to_local_storage save posts add_models_from_path
buffered = refl

-- The file of the first model is missing: its row stays, without a file and a checksum.
missing : (save_models working (first ∷ []) (record made { files = λ path. none })) ≡ (
  record made {
    rows =
        record { key = 4; file = some 30; checksum = some 31 }
        ∷ record { key = 5; file = none; checksum = none }
        ∷ [];
    files = λ path. none;
  },
  raises os_error,
)
unfolding save_models save_model_files save_model_to_local_storage save
missing = refl
