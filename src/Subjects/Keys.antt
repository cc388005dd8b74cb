-- ===== src/Subjects/Keys.antt =====
-- Theorems about the keys of the cards, `buildSubjects` and `subjectByKey`.
use openwrt_apn_autoconfig.Prelude.{
  All-mono, String, ◌≡◌, ◌≢◌, refl, ap, sym, ◌∙◌, not, List, [], ◌∷◌, map, some, arith, All, select,
  Dict, All-map, All-universal, Distinct, Distinct-append, Distinct-select, sole-select,
}
use openwrt_apn_autoconfig.Json.{Value, get, to_string}
use openwrt_apn_autoconfig.Documents.{Documents, records_of}
use openwrt_apn_autoconfig.Subjects.{
  Subject, modem_key, target_key, claims, is_claimed, build_subjects, modem_subject, target_subject,
  target_by_id, subject_by_key,
}
use Prim.Native.Char.{Char, code}
use mathlib.Core.List.{Memᴰ}
use text.Mathlib.TextLemmas.{append_cancel_left, cons-append, head-eq_of_cons-eq}

abbrev pub modem_id : Value → String
modem_id modem = to_string (get modem "modem_id")

abbrev pub interface_of : Value → String
interface_of target = to_string (get target "interface")

letters_apart : ¬ (◌≡◌ {A = Char} "m" "t")
letters_apart e = omega (arith, ap code e)

keys_apart : (modem target : Value) → modem_key modem ≢ target_key target
keys_apart modem target e =
    letters_apart (head-eq_of_cons-eq (sym (cons-append _ _ _) ∙ e ∙ cons-append _ _ _))

Distinct-modems :
    (by_id statuses : Dict Value) (ms : List Value)
    → Distinct modem_id ms
    → Distinct (λ s. s.key) (map (modem_subject by_id statuses) ms)
unfolding modem_subject
Distinct-modems by_id statuses [] _ = tt
Distinct-modems by_id statuses (m ∷ ms) (h, hs) = (
  All-map (λ s. modem_key m ≢ s.key) (modem_subject by_id statuses) ms
      (All-mono ms (λ y ne e. ne (append_cancel_left "modem:" _ _ e)) h),
  Distinct-modems by_id statuses ms hs,
)

Distinct-targets :
    (statuses : Dict Value) (ts : List Value)
    → Distinct interface_of ts
    → Distinct (λ s. s.key) (map (target_subject statuses) ts)
unfolding target_subject
Distinct-targets statuses [] _ = tt
Distinct-targets statuses (t ∷ ts) (h, hs) = (
  All-map (λ s. target_key t ≢ s.key) (target_subject statuses) ts
      (All-mono ts (λ y ne e. ne (append_cancel_left "target:" _ _ e)) h),
  Distinct-targets statuses ts hs,
)

-- The identifiers that the router gives its modems and its connections are distinct.
pub record IsDistinct (documents : Documents) : Type 0 where
  pub modems : Distinct modem_id (records_of documents.inventory "modems")
  pub targets : Distinct interface_of (records_of documents.targets "targets")

kinds_apart :
    (by_id statuses : Dict Value) (ms ts : List Value)
    → All
        (λ a. All (λ b. a.key ≢ b.key) (map (target_subject statuses) ts))
        (map (modem_subject by_id statuses) ms)
unfolding modem_subject target_subject
kinds_apart by_id statuses ms ts =
    All-map (λ a. All (λ b. a.key ≢ b.key) (map (target_subject statuses) ts))
      (modem_subject by_id statuses) ms
      (All-universal _ ms (λ m.
        All-map (λ b. modem_key m ≢ b.key) (target_subject statuses) ts
          (All-universal _ ts (λ t. keys_apart m t))))

-- No two cards have one key, whatever modems and connections there are.
pub build_subjects-Distinct :
    (documents : Documents)
    → IsDistinct documents
    → Distinct (λ s. s.key) (build_subjects documents)
unfolding build_subjects
build_subjects-Distinct documents d =
    let modems = records_of documents.inventory "modems" in
    let targets = records_of documents.targets "targets" in
    let free = select (λ t. not (is_claimed (claims modems) t)) targets in
    let by_id = target_by_id targets [] in
    Distinct-append (λ s. s.key) (map (modem_subject by_id documents.statuses) modems)
      (map (target_subject documents.statuses) free)
      (Distinct-modems by_id documents.statuses modems d.modems)
      (Distinct-targets documents.statuses free
        (Distinct-select interface_of (λ t. not (is_claimed (claims modems) t)) targets d.targets))
      (kinds_apart by_id documents.statuses modems free)

-- When the modems of the router have distinct identifiers and its connections distinct interfaces, every card
-- of the page is found again by its key.
pub subject_by_key-build_subjects :
    (documents : Documents) (subject : Subject)
    → IsDistinct documents
    → Memᴰ subject (build_subjects documents)
    → subject_by_key (build_subjects documents) subject.key ≡ some subject
unfolding subject_by_key
subject_by_key-build_subjects documents subject d m =
    sole-select (λ s. s.key) subject.key (build_subjects documents)
      (build_subjects-Distinct documents d) m refl
