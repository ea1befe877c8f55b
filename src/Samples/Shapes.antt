-- ===== src/Samples/Shapes.antt =====
-- The sample reply has the shape that the service sends, and the sample service sends it.
use ocgeo_fdw.Prelude.{refl, String, [], ◌∷◌, arith}
use ocgeo_fdw.Prelude.Int.{pos}
use ocgeo_fdw.Samples.{
  Json, num, str, arr, obj, item, nil, field, end, found, document, tree, service,
}
use ocgeo_fdw.Api.Reply.Shape.{no_bounds, located, HasResult, rated, listed, HasReply}
use ocgeo_fdw.Api.Request.Total.{HasAnswer, replied}

pub found-HasResult : HasResult tree found
found-HasResult = record {
  confidence = record { node = num (pos 9); found = refl };
  bounds = no_bounds refl;
  geometry =
      located (obj (field "lat" (num (pos 52)) (field "lng" (num (pos 13)) end))) refl (record {
        lat = record { node = num (pos 52); found = refl };
        lng = record { node = num (pos 13); found = refl };
      });
}

abbrev pub reply : Json
reply = document (item found nil)

pub reply-HasReply : HasReply tree reply
reply-HasReply = record {
  status = record {
    node = obj (field "code" (num (pos 200)) (field "message" (str "OK") end));
    found = refl;
  };
  code = record { node = num (pos 200); found = refl };
  rate =
      rated
        (obj (
          field "limit" (num (pos 2500))
            (field "remaining" (num (pos 2499)) (field "reset" (num (pos 1_700_000_000)) end))))
        refl (record { node = num (pos 2500); found = refl })
        (record { node = num (pos 2499); found = refl })
        (record { node = num (pos 1_700_000_000); found = refl });
  total_js = num (pos 1);
  has_total = refl;
  results =
      listed (arr (item found nil)) found [] refl refl refl (omega arith) (found-HasResult, tt);
}

pub service-HasAnswer : (url agent : String) → HasAnswer tree (service.perform url agent)
service-HasAnswer url agent = replied ("{.." ∷ ".}" ∷ []) reply refl reply-HasReply
