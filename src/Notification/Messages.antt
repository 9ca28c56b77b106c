-- ===== src/Notification/Messages.antt =====
-- The builders of requests: `Build…` of internal/notification/sender.go, and `build…` of
-- internal/notification/dispatcher.go, which read the payload of an event. A time is read and
-- written by parameters.
use ma_secure.Base.{String, ◌<>◌, Option, none, some, [], ◌∷◌, ◌==◌, if◌then◌else◌}
use ma_secure.Base.Int.{ℤ}
use ma_secure.Base.Decimal.{print_int, quotient}
use ma_secure.Base.Json.{Json, Fields}
use ma_secure.Base.Decode.{string_field, int64_field, members}
use ma_secure.Base.Fallible.{Result, ok, err, ◌>>=◌}
use ma_secure.Notification.{
  NotificationRequest, contribution_confirmed, payout_confirmed, payout_failed,
  contribution_reminder, quarantine_alert, proposal_created, debt_created, pro_rata_notice,
}

-- An amount in whole francs.
abbrev francs : ℤ → String
francs minor = print_int (quotient minor 100)

unfoldable pub build_contribution_confirmed :
    (msisdn : String) (amount_minor cycle_number : ℤ) → NotificationRequest
build_contribution_confirmed msisdn amount_minor cycle_number = record {
  recipient_msisdn = msisdn;
  template = contribution_confirmed;
  params = francs amount_minor ∷ print_int cycle_number ∷ [];
  sms_body =
      "MaSecure : votre cotisation de "
      <> francs amount_minor
      <> " XOF a été reçue pour le cycle "
      <> print_int cycle_number
      <> ". Merci.";
  event_type = "contribution.confirmed";
  group_id = "";
}

unfoldable pub build_payout_confirmed :
    (msisdn group_name : String) (amount_minor : ℤ) → NotificationRequest
build_payout_confirmed msisdn group_name amount_minor = record {
  recipient_msisdn = msisdn;
  template = payout_confirmed;
  params = francs amount_minor ∷ group_name ∷ [];
  sms_body =
      "MaSecure : vous avez reçu "
      <> francs amount_minor
      <> " XOF de votre tontine "
      <> group_name
      <> ". Félicitations !";
  event_type = "payout.confirmed";
  group_id = "";
}

unfoldable pub build_payout_failed : (msisdn : String) (cycle_number : ℤ) → NotificationRequest
build_payout_failed msisdn cycle_number = record {
  recipient_msisdn = msisdn;
  template = payout_failed;
  params = print_int cycle_number ∷ [];
  sms_body =
      "MaSecure : le versement du cycle "
      <> print_int cycle_number
      <> " a échoué. Votre groupe a été notifié. Contact : votre fondateur.";
  event_type = "payout.failed";
  group_id = "";
}

unfoldable pub build_contribution_reminder :
    (msisdn : String) (amount_minor days_left : ℤ) → NotificationRequest
build_contribution_reminder msisdn amount_minor days_left = record {
  recipient_msisdn = msisdn;
  template = contribution_reminder;
  params = francs amount_minor ∷ print_int days_left ∷ [];
  sms_body =
      "MaSecure : rappel - votre cotisation de "
      <> francs amount_minor
      <> " XOF est due dans "
      <> print_int days_left
      <> " jour(s). Payez via votre Mobile Money.";
  event_type = "contribution.reminder";
  group_id = "";
}

unfoldable pub build_debt_created :
    (msisdn : String) (cycle_number advance_minor : ℤ) → NotificationRequest
build_debt_created msisdn cycle_number advance_minor = record {
  recipient_msisdn = msisdn;
  template = debt_created;
  params = print_int cycle_number ∷ francs advance_minor ∷ [];
  sms_body =
      "MaSecure : votre cotisation du cycle "
      <> print_int cycle_number
      <> " n'a pas été reçue. Une avance de "
      <> francs advance_minor
      <> " XOF a été effectuée. Remboursement requis au prochain cycle.";
  event_type = "debt.created";
  group_id = "";
}

-- `deadline` is the time as it is written.
unfoldable pub build_proposal_created :
    (msisdn proposer_name deadline : String) → NotificationRequest
build_proposal_created msisdn proposer_name deadline = record {
  recipient_msisdn = msisdn;
  template = proposal_created;
  params = proposer_name ∷ deadline ∷ [];
  sms_body =
      "MaSecure : " <> proposer_name
      <> " propose une modification de votre tontine. Votez avant le " <> deadline <> ".";
  event_type = "governance.proposal_created";
  group_id = "";
}

abbrev decoded : {A : Type 0} → Option A → Result String A
decoded none = err "payload"
decoded (some a) = ok a

unfoldable pub read_contribution_received : Json → Result String NotificationRequest
unfolding build_contribution_confirmed
read_contribution_received payload = do
  m ← decoded (members payload)
  cycle_id ← decoded (string_field "cycle_id" m)
  payer ← decoded (string_field "payer_msisdn" m)
  amount ← decoded (int64_field "amount_minor" m)
  number ← decoded (int64_field "cycle_number" m)
  ok (build_contribution_confirmed payer amount number)

unfoldable pub read_payout_confirmed : Json → Result String NotificationRequest
unfolding build_payout_confirmed
read_payout_confirmed payload = do
  m ← decoded (members payload)
  cycle_id ← decoded (string_field "cycle_id" m)
  beneficiary ← decoded (string_field "beneficiary_msisdn" m)
  amount ← decoded (int64_field "amount_minor" m)
  name ← decoded (string_field "group_name" m)
  ok (build_payout_confirmed beneficiary (if name == "" then "votre tontine" else name) amount)

unfoldable pub read_payout_failed : Json → Result String NotificationRequest
unfolding build_payout_failed
read_payout_failed payload = do
  m ← decoded (members payload)
  cycle_id ← decoded (string_field "cycle_id" m)
  beneficiary ← decoded (string_field "beneficiary_msisdn" m)
  number ← decoded (int64_field "cycle_number" m)
  reason ← decoded (string_field "reason" m)
  ok (build_payout_failed beneficiary number)

unfoldable pub quarantine_request : (admin payer : String) (amount : ℤ) → NotificationRequest
quarantine_request admin payer amount = record {
  recipient_msisdn = admin;
  template = quarantine_alert;
  params = francs amount ∷ payer ∷ [];
  sms_body =
      "MaSecure ALERTE : paiement de "
      <> francs amount
      <> " XOF reçu d'un numéro non lié ("
      <> payer
      <> "). Vérification requise.";
  event_type = "";
  group_id = "";
}

unfoldable pub read_quarantine_alert : Json → Result String NotificationRequest
unfolding quarantine_request
read_quarantine_alert payload = do
  m ← decoded (members payload)
  cycle_id ← decoded (string_field "cycle_id" m)
  payer ← decoded (string_field "payer_msisdn" m)
  amount ← decoded (int64_field "amount_minor" m)
  reason ← decoded (string_field "reason" m)
  admin ← decoded (string_field "admin_msisdn" m)
  if admin == ""
      then err "no admin msisdn for quarantine alert"
      else ok (quarantine_request admin payer amount)

unfoldable pub read_debt : Json → Result String NotificationRequest
unfolding build_debt_created
read_debt payload = do
  m ← decoded (members payload)
  debtor ← decoded (string_field "debtor_msisdn" m)
  number ← decoded (int64_field "cycle_number" m)
  amount ← decoded (int64_field "amount_minor" m)
  ok (build_debt_created debtor number amount)

unfoldable pub pro_rata_request :
    (beneficiary : String) (distributable fraction : ℤ) → NotificationRequest
pro_rata_request beneficiary distributable fraction = record {
  recipient_msisdn = beneficiary;
  template = pro_rata_notice;
  params = francs distributable ∷ (print_int fraction <> "%") ∷ [];
  sms_body =
      "MaSecure : versement partiel de "
      <> francs distributable
      <> " XOF ("
      <> print_int fraction
      <> "% du montant attendu). Le solde sera régularisé.";
  event_type = "";
  group_id = "";
}

unfoldable pub read_pro_rata_notice : Json → Result String NotificationRequest
unfolding pro_rata_request
read_pro_rata_notice payload = do
  m ← decoded (members payload)
  beneficiary ← decoded (string_field "beneficiary_msisdn" m)
  distributable ← decoded (int64_field "distributable_minor" m)
  fraction ← decoded (int64_field "fraction_pct" m)
  ok (pro_rata_request beneficiary distributable fraction)

-- `deadline_of` reads the field `expires_at` and writes it as `02/01 à 15h`.
unfoldable pub read_proposal : (Fields → Option String) → Json → Result String NotificationRequest
unfolding build_proposal_created
read_proposal deadline_of payload = do
  m ← decoded (members payload)
  member ← decoded (string_field "member_msisdn" m)
  proposer ← decoded (string_field "proposer_name" m)
  deadline ← decoded (deadline_of m)
  ok (build_proposal_created member proposer deadline)
