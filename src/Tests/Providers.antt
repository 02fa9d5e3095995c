-- ===== src/Tests/Providers.antt =====
-- The response of a scan: the theorem at concrete data.
use complytime.Base.{none, [], ◌∷◌, map, ◌≡◌}
use complytime.Base.Integers.{pos}
use complytime.Provider.Messages.{ScanResponse, failed, other, high}
use complytime.Provider.Protocol.{respond, receive}
use complytime.Provider.Protocol.Received.{delivered, receive-respond}

abbrev response : ScanResponse
response = record {
  assessments =
      record {
        plan_id = "";
        requirement_id = "AC-1";
        steps =
            record { name = "a"; result = failed; message = "" }
            ∷ record { name = "b"; result = other (pos 9); message = "" }
            ∷ [];
        message = "one failed";
        confidence = high;
        evidence =
            record {
              id = "e";
              kind = "log";
              description = "";
              payload = "x";
              collected_at = "";
              source = none;
            }
            ∷ [];
        recommendation = "";
      }
      ∷ [];
  errors = "no access" ∷ [];
  mapping_references = [];
}

receive-respond_example :
    receive (respond response)
    ≡ record response { assessments = map delivered response.assessments }
receive-respond_example = receive-respond response
