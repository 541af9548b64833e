-- ===== src/Registration/Examples.antt =====
-- The theorems about the registration of data samples on requests with two files.
use substra_backend.Prelude.{
  true, false, if◌then◌else◌, ◌==◌, ◌≡◌, refl, ◌⊎◌, none, some, List, [], ◌∷◌, ◌++◌,
}
use substra_backend.Registration.{
  CreationError, validation_error, other_error, Reply, raises, gives, FileData, ApiData, Tables,
  Calls, check_datamanagers, create_all, create, with_files, db_create,
}
use substra_backend.Registration.Rows.{add_rows}
use substra_backend.Registration.Creating.{
  rows_of, yielded, Registered, create_all-refused, create_all-answered, create-leaves_rows,
}

-- Files with the content 0 are invalid.
abbrev calls : Reply (List ApiData) → Calls
calls answer = record {
  is_valid = λ f. if f.content == 0 then false else true;
  save_fails = λ f. false;
  register_datasamples = λ rows keys. answer;
  has_other_errors = λ d. false;
  save_raises = λ d. none;
}

abbrev first_file : FileData
first_file = record { new_key = 10; content = 1; checksum = 2 }

abbrev second_file : FileData
second_file = record { new_key = 11; content = 3; checksum = 4 }

abbrev bad_file : FileData
bad_file = record { new_key = 12; content = 0; checksum = 4 }

abbrev files : List FileData
files = first_file ∷ second_file ∷ []

abbrev db : Tables
db = record {
  files = record { key = 1; stored = 5; checksum = 6 } ∷ [];
  samples = [];
  data_managers = 7 ∷ 8 ∷ [];
}

abbrev refusing : Calls
refusing = calls (raises (other_error 1))

abbrev answer : List ApiData
answer = record { key = 10; metadata = 0 } ∷ record { key = 11; metadata = 0 } ∷ []

abbrev answering : Calls
answering = calls (gives answer)

checked : check_datamanagers (7 ∷ []) db ≡ gives tt
unfolding check_datamanagers
checked = refl

create_all-refused_example :
    ((create_all refusing (7 ∷ []) (yielded refusing files) db).1 ≡ raises (other_error 1))
    × ((create_all refusing (7 ∷ []) (yielded refusing files) db).0 ≡ db)
create_all-refused_example =
    create_all-refused refusing (7 ∷ []) files db (refl, (refl, tt)) checked refl (other_error 1)
      refl

create_all-answered_example :
    (((create_all answering (7 ∷ []) (yielded answering files) db).1 ≡ gives tt)
      × Registered answering
          (rows_of answering files)
          answer
          (with_files (add_rows (rows_of answering files) db.files) db)
          (create_all answering (7 ∷ []) (yielded answering files) db).0)
    ⊎ ((e : CreationError) × ((create_all answering (7 ∷ []) (yielded answering files) db).1
          ≡ raises e)
        × ((create_all answering (7 ∷ []) (yielded answering files) db).0.files ≡ db.files))
create_all-answered_example =
    create_all-answered answering (7 ∷ []) files db (refl, (refl, tt)) checked refl answer refl
      (refl, (refl, tt))

invalid : db_create answering bad_file ≡ raises validation_error
unfolding db_create
invalid = refl

create-leaves_rows_example :
    create answering (7 ∷ []) (yielded answering files ++ (gives bad_file ∷ [])) db
    ≡ (with_files (add_rows (rows_of answering files) db.files) db, some 400)
create-leaves_rows_example =
    create-leaves_rows answering (7 ∷ []) files (gives bad_file) [] db (refl, (refl, tt)) invalid
      checked
