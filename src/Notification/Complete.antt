-- ===== src/Notification/Complete.antt =====
-- The messages of internal/notification against the templates that its comments list.
use ma_secure.Base.{
  ℕ, String, Bool, ◌<>◌, Option, none, some, ◌≡◌, ◌≢◌, refl, length, true, false, if◌then◌else◌,
}
use mathlib.Core.Path.{subst}
use text.Mathlib.TextLemmas.{append-eq-nil_iff}
use ma_secure.Base.Json.{Json, Fields}
use ma_secure.Base.Fallible.{Result, ok, err, ok-injective, ◌>>=◌}
use ma_secure.Notification.{
  Template, contribution_confirmed, payout_sent, payout_confirmed, payout_failed,
  contribution_reminder, quarantine_alert, proposal_created, vote_reminder, proposal_approved,
  proposal_rejected, debt_created, debt_repaid, pro_rata_notice, NotificationRequest,
}
use ma_secure.Base.Int.{ℤ}
use ma_secure.Notification.Messages.{
  pro_rata_request, quarantine_request, build_payout_failed, build_contribution_confirmed,
  build_debt_created, build_contribution_reminder, build_payout_confirmed, build_proposal_created,
  read_contribution_received, read_payout_confirmed, read_payout_failed, read_quarantine_alert,
  read_debt, read_proposal, read_pro_rata_notice,
}
use ma_secure.Notification.Dispatcher.{Reader, reader_of}

-- How many places `{{n}}` the text of a template has.
unfoldable pub placeholders : Template → ℕ
placeholders contribution_confirmed = 2
placeholders payout_sent = 1
placeholders payout_confirmed = 2
placeholders payout_failed = 1
placeholders contribution_reminder = 2
placeholders quarantine_alert = 2
placeholders proposal_created = 2
placeholders vote_reminder = 1
placeholders proposal_approved = 0
placeholders proposal_rejected = 0
placeholders debt_created = 2
placeholders debt_repaid = 1
placeholders pro_rata_notice = 2

-- A request that fills its template, and that a text message can stand for.
pub record IsComplete (req : NotificationRequest) : Type 0 where
  pub fills : length req.params ≡ placeholders req.template
  pub has_text : req.sms_body ≢ ""

-- If it is a value, `P` holds for it.
record Yields {A : Type 0} (P : A → Type 0) (r : Result String A) : Type 0 where
  of : (a : A) → r ≡ ok a → P a

Yields-bind :
    {A B : Type 0} (P : B → Type 0) (m : Result String A) (f : A → Result String B)
    → ((a : A) → Yields P (f a))
    → Yields P (m >>= f)
Yields-bind P (ok a) f k = k a
Yields-bind P (err e) f k = record { of = λ a h. absurd (cc h) }

Yields-ok : (req : NotificationRequest) → IsComplete req → Yields IsComplete (ok req)
Yields-ok req c = record { of = λ q h. subst IsComplete (ok-injective h) c }

starts_in_text : (a b : String) → a ≢ "" → a <> b ≢ ""
starts_in_text a b n h = n (append-eq-nil_iff.0 h).0

build_contribution_confirmed-IsComplete :
    (msisdn : String) (amount cycle : ℤ)
    → IsComplete (build_contribution_confirmed msisdn amount cycle)
unfolding build_contribution_confirmed placeholders
build_contribution_confirmed-IsComplete msisdn amount cycle = record {
  fills = refl;
  has_text = starts_in_text _ _ (cc);
}

build_payout_failed-IsComplete :
    (msisdn : String) (cycle : ℤ) → IsComplete (build_payout_failed msisdn cycle)
unfolding build_payout_failed placeholders
build_payout_failed-IsComplete msisdn cycle = record {
  fills = refl;
  has_text = starts_in_text _ _ (cc);
}

build_debt_created-IsComplete :
    (msisdn : String) (cycle amount : ℤ) → IsComplete (build_debt_created msisdn cycle amount)
unfolding build_debt_created placeholders
build_debt_created-IsComplete msisdn cycle amount = record {
  fills = refl;
  has_text = starts_in_text _ _ (cc);
}

build_contribution_reminder-IsComplete :
    (msisdn : String) (amount days : ℤ)
    → IsComplete (build_contribution_reminder msisdn amount days)
unfolding build_contribution_reminder placeholders
build_contribution_reminder-IsComplete msisdn amount days = record {
  fills = refl;
  has_text = starts_in_text _ _ (cc);
}

build_payout_confirmed-IsComplete :
    (msisdn name : String) (amount : ℤ) → IsComplete (build_payout_confirmed msisdn name amount)
unfolding build_payout_confirmed placeholders
build_payout_confirmed-IsComplete msisdn name amount = record {
  fills = refl;
  has_text = starts_in_text _ _ (cc);
}

build_proposal_created-IsComplete :
    (msisdn name deadline : String) → IsComplete (build_proposal_created msisdn name deadline)
unfolding build_proposal_created placeholders
build_proposal_created-IsComplete msisdn name deadline = record {
  fills = refl;
  has_text = starts_in_text _ _ (cc);
}

Yields-read_contribution_received : (j : Json) → Yields IsComplete (read_contribution_received j)
unfolding read_contribution_received
Yields-read_contribution_received j =
    search (Yields-bind, Yields-ok, build_contribution_confirmed-IsComplete) depth 20

Yields-read_payout_confirmed : (j : Json) → Yields IsComplete (read_payout_confirmed j)
unfolding read_payout_confirmed
Yields-read_payout_confirmed j =
    search (Yields-bind, Yields-ok, build_payout_confirmed-IsComplete) depth 20

Yields-read_payout_failed : (j : Json) → Yields IsComplete (read_payout_failed j)
unfolding read_payout_failed
Yields-read_payout_failed j =
    search (Yields-bind, Yields-ok, build_payout_failed-IsComplete) depth 20

Yields-read_debt : (j : Json) → Yields IsComplete (read_debt j)
unfolding read_debt
Yields-read_debt j = search (Yields-bind, Yields-ok, build_debt_created-IsComplete) depth 20

Yields-read_proposal :
    (deadline_of : Fields → Option String) (j : Json)
    → Yields IsComplete (read_proposal deadline_of j)
unfolding read_proposal
Yields-read_proposal deadline_of j =
    search (Yields-bind, Yields-ok, build_proposal_created-IsComplete) depth 20

pro_rata_request-IsComplete :
    (beneficiary : String) (amount fraction : ℤ)
    → IsComplete (pro_rata_request beneficiary amount fraction)
unfolding pro_rata_request placeholders
pro_rata_request-IsComplete beneficiary amount fraction = record {
  fills = refl;
  has_text = starts_in_text _ _ (cc);
}

quarantine_request-IsComplete :
    (admin payer : String) (amount : ℤ) → IsComplete (quarantine_request admin payer amount)
unfolding quarantine_request placeholders
quarantine_request-IsComplete admin payer amount = record {
  fills = refl;
  has_text = starts_in_text _ _ (cc);
}

Yields-err : (e : String) → Yields IsComplete (err e)
Yields-err e = record { of = λ q h. absurd (cc h) }

Yields-if :
    (b : Bool) (x y : Result String NotificationRequest)
    → Yields IsComplete x
    → Yields IsComplete y
    → Yields IsComplete (if b then x else y)
Yields-if true x y p q = p
Yields-if false x y p q = q

Yields-read_pro_rata_notice : (j : Json) → Yields IsComplete (read_pro_rata_notice j)
unfolding read_pro_rata_notice
Yields-read_pro_rata_notice j =
    search (Yields-bind, Yields-ok, pro_rata_request-IsComplete) depth 20

Yields-read_quarantine_alert : (j : Json) → Yields IsComplete (read_quarantine_alert j)
unfolding read_quarantine_alert
Yields-read_quarantine_alert j =
    search (Yields-bind, Yields-ok, Yields-if, Yields-err, quarantine_request-IsComplete) depth 20

abbrev AllYield : Option Reader → Type 0
AllYield none = Unit
AllYield (some read) = (j : Json) → Yields IsComplete (read j)

AllYield-if :
    (b : Bool) (x y : Option Reader) → AllYield x → AllYield y → AllYield (if b then x else y)
AllYield-if true x y p q = p
AllYield-if false x y p q = q

AllYield-reader_of :
    (deadline_of : Fields → Option String) (event_type : String)
    → AllYield (reader_of deadline_of event_type)
unfolding reader_of
AllYield-reader_of deadline_of event_type =
    search
      (
        AllYield-if, Yields-read_contribution_received, Yields-read_payout_confirmed,
        Yields-read_payout_failed, Yields-read_quarantine_alert, Yields-read_debt,
        Yields-read_proposal, Yields-read_pro_rata_notice,
      )
      depth 20

-- Whatever the payload of an event, a request that is made of it has as many parameters as its
-- template has places, and a text to send by SMS.
pub reader_of-IsComplete :
    (deadline_of : Fields → Option String) (event_type : String) (read : Reader) (payload : Json)
    (req : NotificationRequest)
    → reader_of deadline_of event_type ≡ some read
    → read payload ≡ ok req
    → IsComplete req
reader_of-IsComplete deadline_of event_type read payload req found =
    (subst AllYield found (AllYield-reader_of deadline_of event_type) payload).of req
