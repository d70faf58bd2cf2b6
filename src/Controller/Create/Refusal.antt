-- ===== src/Controller/Create/Refusal.antt =====
-- Which requests `CreateVolume` refuses before it asks the API, and the size of what it gives.
use scaleway_csi.Base.{
  String, ◌<>◌, ◌≡◌, ap, Option, none, some, [], ◌∷◌, arith, err, Failure, status, panic, Code,
  invalid_argument, Result-cases, inl, inr, bind_err, lift, ◌>>=◌,
}
use scaleway_csi.Base.Table.{Table}
use scaleway_csi.Ids.{Zone}
use scaleway_csi.Cloud.{InstanceApi}
use scaleway_csi.Controller.Sizing.{size_for}
use scaleway_csi.Controller.Create.{
  Request, Settings, read_parameter, read_parameters, check_request, create_volume, find_or_create,
  default_settings,
}

-- The status code of a failure that is no panic.
abbrev pub code_of : Failure → Option Code
code_of (status code text) = some code
code_of (panic text) = none

abbrev pub IsInvalid : Failure → Type 0
IsInvalid f = code_of f ≡ some invalid_argument

read_parameter-IsInvalid :
    (p : String × String) (s : Settings) (f : Failure) → read_parameter p s ≡ err f → IsInvalid f
unfolding read_parameter
read_parameter-IsInvalid (key, value) s f e = ground arith

read_parameters-IsInvalid :
    (ps : Table String) (s : Settings) (f : Failure) → read_parameters ps s ≡ err f → IsInvalid f
unfolding read_parameters
read_parameters-IsInvalid [] s f e = cc
read_parameters-IsInvalid (p ∷ ps) s f e = elim (Result-cases (read_parameter p s)) [
  | inl (s', good) ↦ read_parameters-IsInvalid ps s' f (ground arith)
  | inr (x, bad) ↦ read_parameter-IsInvalid p s f (ground arith)
]

check_request-IsInvalid : (req : Request) (f : Failure) → check_request req ≡ err f → IsInvalid f
unfolding check_request
check_request-IsInvalid req f e =
    elim (Result-cases (read_parameters req.parameters default_settings)) [
      | inl (s, good) ↦ ground arith
      | inr (x, bad) ↦
          ground (arith, read_parameters-IsInvalid req.parameters default_settings x bad)
    ]

module _ (parse_zone : String → Option Zone) (order : Table Zone → Table Zone)
    (api : InstanceApi) where
  open api use {State}

  -- A request that fails the checks is refused with the failure of the checks, which is an invalid
  -- argument, and nothing is changed.
  pub create_volume_refused :
      (prefix : String) (req : Request) (w : State) (f : Failure)
      → check_request req ≡ err f
      → IsInvalid f × (create_volume parse_zone order api prefix req w ≡ (err f, w))
  unfolding create_volume
  create_volume_refused prefix req w f e = (
    check_request-IsInvalid req f e,
    bind_err (lift (check_request req))
        (λ s. size_for api s.volume_type req.capacity_range >>= λ size.
          find_or_create parse_zone order api (prefix <> req.name) size s req)
        (ap (λ r. (r, w)) e),
  )
