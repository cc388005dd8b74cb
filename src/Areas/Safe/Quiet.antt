-- ===== src/Areas/Safe/Quiet.antt =====
-- The parts of the areas that hold no control.
use openwrt_apn_autoconfig.Prelude.{◌≡◌, refl, [], arith, String, Option, some, none}
use openwrt_apn_autoconfig.Json.{Value}
use openwrt_apn_autoconfig.Text.{Text}
use openwrt_apn_autoconfig.Subjects.{Subject}
use openwrt_apn_autoconfig.Connection.{State}
use openwrt_apn_autoconfig.Ui.{controls, all_controls}
use openwrt_apn_autoconfig.Areas.{Screen}
use openwrt_apn_autoconfig.Areas.Overview
use openwrt_apn_autoconfig.Areas.Connection
use openwrt_apn_autoconfig.Areas.Sim
use openwrt_apn_autoconfig.Areas.Apn
use openwrt_apn_autoconfig.Areas.Modem
use openwrt_apn_autoconfig.Areas.Card
use openwrt_apn_autoconfig.Areas.Endpoint
use openwrt_apn_autoconfig.Areas.Euicc

pub refusals-quiet : (state : State) → all_controls (Overview.refusal_nodes state) ≡ []
unfolding Overview.refusal_nodes all_controls
refusals-quiet state = ground arith

pub unknowns-quiet : (state : State) → all_controls (Overview.unknown_nodes state) ≡ []
unfolding Overview.unknown_nodes all_controls
unknowns-quiet state = ground arith

pub notes-quiet : (name : String) (t : Option Text) → all_controls (Overview.note_nodes name t) ≡ []
unfolding Overview.note_nodes all_controls
notes-quiet name none = refl
notes-quiet name (some t) = ground arith

pub notice-quiet : (status : Value) → all_controls (Connection.incomplete_notice status) ≡ []
unfolding Connection.incomplete_notice all_controls
notice-quiet status = ground arith

network-quiet : (subject : Subject) → all_controls (Connection.network_rows subject) ≡ []
unfolding Connection.network_rows all_controls
network-quiet subject = ground arith

pub rows-quiet : (subject : Subject) → all_controls (Connection.connection_rows subject) ≡ []
unfolding Connection.connection_rows all_controls
rows-quiet subject = ground (arith, network-quiet subject)

pub subscription-quiet : (status : Value) → all_controls (Sim.subscription_nodes status) ≡ []
unfolding Sim.subscription_nodes all_controls
subscription-quiet status = ground arith

pub details-quiet : (status : Value) → all_controls (Sim.sim_details status) ≡ []
unfolding Sim.sim_details all_controls
details-quiet status = ground arith

pub apn_rows-quiet : (status : Value) → all_controls (Apn.apn_rows status) ≡ []
unfolding Apn.apn_rows all_controls
apn_rows-quiet status = ground arith

pub demoted-quiet : (status : Value) → all_controls (Apn.demoted_nodes status) ≡ []
unfolding Apn.demoted_nodes all_controls
demoted-quiet status = ground arith

pub apn_details-quiet : (status : Value) → controls (Apn.apn_details status) ≡ []
unfolding Apn.apn_details all_controls
apn_details-quiet status = ground arith

pub modem_advanced-quiet :
    (screen : Screen) (v : Value) → controls (Modem.modem_advanced screen v) ≡ []
unfolding Modem.modem_advanced all_controls
modem_advanced-quiet screen v = ground arith

pub modem_rows-quiet : (subject : Subject) → all_controls (Modem.modem_rows subject) ≡ []
unfolding Modem.modem_rows all_controls
modem_rows-quiet subject = ground arith

pub absent-quiet : (subject : Subject) → all_controls (Modem.absent_modem_nodes subject) ≡ []
unfolding Modem.absent_modem_nodes all_controls
absent-quiet subject = ground arith

pub diagnostics-quiet :
    (screen : Screen) (subject : Subject)
    → all_controls (Modem.diagnostics_area_nodes screen subject) ≡ []
unfolding Modem.diagnostics_area_nodes all_controls
diagnostics-quiet screen subject = ground arith

pub age-quiet : (document : Value) → all_controls (Card.read_age_nodes document) ≡ []
unfolding Card.read_age_nodes all_controls
age-quiet document = ground arith

pub resources-quiet : (document : Value) → all_controls (Card.card_resource_nodes document) ≡ []
unfolding Card.card_resource_nodes all_controls
resources-quiet document = ground arith

pub endpoint_rows-quiet : (e : Value) → all_controls (Endpoint.endpoint_rows e) ≡ []
unfolding Endpoint.endpoint_rows all_controls
endpoint_rows-quiet e = ground arith

pub running-quiet :
    (screen : Screen) (subject : Subject)
    → all_controls (Endpoint.endpoint_running_nodes screen subject) ≡ []
unfolding Endpoint.endpoint_running_nodes all_controls
running-quiet screen subject = ground arith

pub noted-quiet :
    (screen : Screen) (e : Value) → all_controls (Endpoint.noted_refusal screen e) ≡ []
unfolding Endpoint.noted_refusal all_controls
noted-quiet screen e = ground arith

pub active_slot-quiet :
    (subject : Subject) (entry : Value) → all_controls (Euicc.active_slot_nodes subject entry) ≡ []
unfolding Euicc.active_slot_nodes all_controls
active_slot-quiet subject entry = ground arith

pub delivery-quiet : (action : Value) → all_controls (Euicc.esim_delivery_nodes action) ≡ []
unfolding Euicc.esim_delivery_nodes all_controls
delivery-quiet action = ground arith

pub stages-quiet : (action : Value) → all_controls (Euicc.esim_stage_nodes action) ≡ []
unfolding Euicc.esim_stage_nodes all_controls
stages-quiet action = ground arith
