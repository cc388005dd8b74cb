-- ===== src/Subjects/Cards.antt =====
-- A lemma for proofs about every card of `buildSubjects`.
use openwrt_apn_autoconfig.Prelude.{
  [], Dict, map, not, select, All, All-map, All-append, All-universal,
}
use openwrt_apn_autoconfig.Json.{Value}
use openwrt_apn_autoconfig.Documents.{Documents, records_of}
use openwrt_apn_autoconfig.Subjects.{
  Subject, target_by_id, modem_subject, target_subject, claims, is_claimed, build_subjects,
}

pub All-build_subjects {ℓ} :
    (P : Subject → Type ℓ) (documents : Documents)
    → ((by_id : Dict Value) (modem : Value) → P (modem_subject by_id documents.statuses modem))
    → ((target : Value) → P (target_subject documents.statuses target))
    → All P (build_subjects documents)
unfolding build_subjects
All-build_subjects P documents h k =
    let modems = records_of documents.inventory "modems" in
    let targets = records_of documents.targets "targets" in
    let by_id = target_by_id targets [] in
    let free = select (λ t. not (is_claimed (claims modems) t)) targets in
    All-append P (map (modem_subject by_id documents.statuses) modems)
      (map (target_subject documents.statuses) free)
      (All-map P (modem_subject by_id documents.statuses) modems (All-universal _ modems (h by_id)))
      (All-map P (target_subject documents.statuses) free (All-universal _ free k))
