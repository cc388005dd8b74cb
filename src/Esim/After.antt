-- ===== src/Esim/After.antt =====
-- `afterEsimOperation` as a whole, with the answers of all its calls, and `esimRefuse`.
pub mod Marks
use openwrt_apn_autoconfig.Prelude.{ℕ, String, List, [], ◌∷◌, Option, insert}
use openwrt_apn_autoconfig.Json.{Value}
use openwrt_apn_autoconfig.Wrapper.{Answer}
use openwrt_apn_autoconfig.Subjects.{Subject}
use openwrt_apn_autoconfig.Engine.{Effect, refresh}
use openwrt_apn_autoconfig.Esim.{EsimPage, Pending, endpoint_key, drawing}
use openwrt_apn_autoconfig.Text.{Text}
use openwrt_apn_autoconfig.Esim.Consent.{
  Consent, refusing, delete_dialog, takeover_dialog, switch_dialog, collect_delete_plan,
}
use openwrt_apn_autoconfig.Esim.Settling.{
  Next, nothing, collect, read_card, begin_settling, wait_for_endpoint, pending_key, after_wait,
  end_settling,
}
use openwrt_apn_autoconfig.Esim.Reading.{read_endpoint_card}

-- The answers: about the inventory, once for each read of it, about the two lists of a card, and about the
-- plan that an operation made.
pub record Answers : Type 0 where
  pub inventory : ℕ → Answer
  pub profiles : Answer
  pub notifications : Answer
  pub plan : List Value → Answer

unfoldable pub esim_refuse : Value → Text → EsimPage → EsimPage × List Effect
esim_refuse endpoint message s =
    (record s { refusals = insert (endpoint_key endpoint) message s.refusals }, drawing s)

-- What a collected plan changes of the page: a refusal is noted beside the endpoint, a dialog changes nothing.
unfoldable pub show_consent : Value → Consent → EsimPage → EsimPage
unfolding esim_refuse
show_consent endpoint (refusing message) s = (esim_refuse endpoint message s).0
show_consent endpoint (delete_dialog _) s = s
show_consent endpoint (takeover_dialog _) s = s
show_consent endpoint (switch_dialog _ _ _) s = s

-- What follows the wait: the read of the card, or the plan of a removal.
unfoldable pub follow_up : Answers → Value → Next → EsimPage → EsimPage
unfolding read_endpoint_card show_consent collect_delete_plan
follow_up answers action (read_card endpoint) s =
    read_endpoint_card endpoint answers.profiles answers.notifications s
follow_up answers action nothing s = s
follow_up answers action (collect subject endpoint wanted) s =
    show_consent endpoint (collect_delete_plan answers.plan subject endpoint action wanted) s

-- The handler of the wait and what follows it.
unfoldable pub handle_end :
    Answers → List Subject → String → Pending → Value → Option Value → EsimPage → EsimPage
unfolding after_wait follow_up
handle_end answers subjects modem_id p action endpoint s =
    let (t, then) = after_wait subjects modem_id p action endpoint s in
    follow_up answers action then t

-- `afterEsimOperation`, with the six attempts that `waitForEndpoint` makes; the documents are refreshed at its
-- end, and the drawings on the way are not among its effects.
unfoldable pub after_esim_operation :
    Answers → List Subject → String → Pending → Value → EsimPage → EsimPage × List Effect
unfolding begin_settling wait_for_endpoint handle_end end_settling
after_esim_operation answers subjects modem_id p action s =
    let t = begin_settling modem_id p action s in
    let w = wait_for_endpoint answers.inventory 0 modem_id (pending_key p) 6 t in
    (
      end_settling modem_id p (handle_end answers subjects modem_id p action w.endpoint w.page),
      refresh ∷ [],
    )
