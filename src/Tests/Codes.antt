-- ===== src/Tests/Codes.antt =====
-- Activation codes as they are pasted.
use openwrt_apn_autoconfig.Prelude.{ℕ, ◌≡◌, refl, List, ◌++◌, Option, some, is_space, units}
use openwrt_apn_autoconfig.Activation.{
  activation_code, activation_code_host, accepted, strip_spaces, strip_lpa, is_lpa, split_dollar,
  check_text, check_body, is_bad_host, is_bad_reference, is_host_unit, is_reference_unit,
}
use openwrt_apn_autoconfig.Activation.Shape.{check_body-IsBody}
use openwrt_apn_autoconfig.Activation.Accepts.{
  IsCode, lpa, activation_code-IsCode, activation_code_idem, activation_code-spellings,
}

runs : Unit {0}
unfolding is_space activation_code activation_code_host strip_spaces strip_lpa is_lpa split_dollar
    check_text check_body is_bad_host is_bad_reference is_host_unit is_reference_unit
runs = tt

abbrev pasted : Option (List ℕ)
pasted = some (units " lpa:1$rsp.example.com$AB-12 ")

abbrev body : List ℕ
body = units "1$rsp.example.com$AB-12"

abbrev clean : List ℕ
clean = units "LPA:1$rsp.example.com$AB-12"

accepts : activation_code pasted ≡ accepted clean
unfolding runs
accepts = refl

checks : check_body body ≡ accepted clean
unfolding runs
checks = refl

strips : strip_spaces (units " lpa:1$rsp.example.com$AB-12 ") ≡ units "lpa:" ++ body
unfolding runs
strips = refl

host_test : activation_code_host clean ≡ units "rsp.example.com"
unfolding runs
host_test = refl

activation_code-IsCode_example : IsCode clean
activation_code-IsCode_example = activation_code-IsCode pasted accepts

activation_code_idem_example : activation_code (some clean) ≡ accepted clean
activation_code_idem_example = activation_code_idem pasted accepts

activation_code-spellings_example : activation_code pasted ≡ accepted clean
unfolding runs
activation_code-spellings_example =
    activation_code-spellings (units " lpa:1$rsp.example.com$AB-12 ") body
      (lpa b'l' b'p' b'a' b':' refl) (check_body-IsBody body checks).1 strips
