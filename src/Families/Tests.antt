-- ===== src/Families/Tests.antt =====
-- A pairing of a concrete phone.
use brainxp_server.Auth.{Fresh, TokenOut, has_hash}
use brainxp_server.Devices.{
  announce_replacement, conflicting, count_attempt, displace, has_code, tried,
}
use brainxp_server.Devices.Bound.{IsPaired}
use brainxp_server.Families.{
  Drawn, PairIn, bind_device, consumed_code, open_code_of, pair_device, phone_claims,
}
use brainxp_server.Families.Codes.{CanPair, pair_device_cases}
use brainxp_server.Families.Household.{Housekept-IsPaired, nothing_done, tried_code}
use brainxp_server.Families.Issue.{
  choose_code, code_draws, insert_code, issue_code, issue_code_cases, new_code, pairing_ttl,
}
use brainxp_server.Policies.Handlers.{reply}
use brainxp_server.Prelude.{
  String, [], arith, false, none, refl, some, take, true, ℕ, ◌+◌, ◌<◌, ◌∷◌, ◌≡◌, ◌⊎◌,
}
use brainxp_server.Prelude.Exec.{AppError, err, internal, ok}
use brainxp_server.Prelude.Rows.{count_where, delete_where, exists_where, first_where, rows_where}
use brainxp_server.Samples.{db_five}
use brainxp_server.Tables.{Db}
use brainxp_server.Tables.People.{PairingCode}

abbrev clear : String → String
clear x = x

abbrev code_row : PairingCode
code_row = record {
  code = "123456";
  family_id = 22;
  subject_id = 5;
  issued_by = 1;
  expires_at = 5000;
  consumed_at = none;
  attempt_count = 0;
}

abbrev db_code : Db
db_code = record db_five { pairing_codes = code_row ∷ [] }

abbrev pairing : PairIn
pairing = record {
  code = "123456";
  install_binding = "install";
  platform = "android";
  model_name = none;
}

abbrev drawn_phone : Drawn
drawn_phone = record { device = 8; secret = "s" }

abbrev fresh_token : Fresh
fresh_token = record { raw = "r"; id = 31; chain = 32 }

no_clash :
    exists_where
      (has_hash "r")
      (bind_device clear 3600 code_row pairing drawn_phone 1000
        (count_attempt "123456" db_code)).refresh_tokens
    ≡ false
unfolding bind_device displace conflicting count_attempt announce_replacement rows_where
    exists_where
no_clash = refl

pair_device_cases_example :
    let (reply, db') =
      pair_device clear 3600 true true pairing drawn_phone fresh_token 1000 db_code in
    (CanPair code_row 1000
      × (out : TokenOut) × (reply ≡ ok out)
      × (out.claims ≡ phone_claims clear 3600 code_row drawn_phone)
      × (first_where (has_code "123456") db'.pairing_codes
          ≡ some (consumed_code 1000 (tried code_row))))
    ⊎ ((e : AppError) × (reply ≡ err e)
        × (¬ CanPair code_row 1000)
        × (db' ≡ count_attempt "123456" db_code))
pair_device_cases_example =
    pair_device_cases clear 3600 pairing drawn_phone fresh_token 1000 code_row db_code
      (unfold first_where in refl) no_clash

no_phones : IsPaired db_code.devices
unfolding count_where
no_phones = record { one_phone = λ s. omega arith; one_profile = λ b. omega arith }

Housekept-IsPaired_example :
    IsPaired
      (pair_device clear 3600 true true pairing drawn_phone fresh_token 1000 db_code).1.devices
Housekept-IsPaired_example =
    Housekept-IsPaired clear 3600 no_phones
      (tried_code true true pairing drawn_phone fresh_token 1000 nothing_done)

-- A draw that meets an expired code of another profile.
drawn_again :
    choose_code
      (take code_draws ("123456" ∷ []))
      6000
      (delete_where (open_code_of 6) db_code.pairing_codes)
    ≡ some "123456"
unfolding choose_code exists_where delete_where
drawn_again = refl

issue_code_cases_example :
    let codes = delete_where (open_code_of 6) db_code.pairing_codes in
    let c = new_code "123456" 22 6 1 6000 in
    (exists_where (has_code "123456") codes ≡ true
      → issue_code 22 6 1 ("123456" ∷ []) 6000 db_code ≡ err internal)
    × (exists_where (has_code "123456") codes ≡ false
        → (db' : Db) × (issue_code 22 6 1 ("123456" ∷ []) 6000 db_code ≡ ok (c, db'))
          × (first_where (has_code "123456") db'.pairing_codes ≡ some c)
          × ((t : ℕ) → t < 6000 + pairing_ttl → CanPair c t))
issue_code_cases_example = issue_code_cases 22 6 1 ("123456" ∷ []) 6000 "123456" db_code drawn_again

stale_code_test : issue_code 22 6 1 ("123456" ∷ []) 6000 db_code ≡ err internal
unfolding issue_code insert_code choose_code exists_where delete_where
stale_code_test = refl
