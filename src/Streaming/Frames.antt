-- ===== src/Streaming/Frames.antt =====
-- frontend/src/domains/streaming/domain/entities.ts and the wire shapes and their translation in
-- infrastructure/httpStreamingGateway.ts. `Number` is the host's number type.
use openscale.Base.{Text, Option, none, some}

pub record TripEvent (Number : Type 0) : Type 0 where
  pub pickup_at : Text
  pub dropoff_at : Text
  pub pickup_location_id : Number
  pub dropoff_location_id : Number
  pub passenger_count : Number
  pub trip_distance_miles : Number
  pub fare_amount : Number
  pub tip_amount : Number
  pub total_amount : Number
  pub payment_type : Number

pub record WindowAggregate (Number : Type 0) : Type 0 where
  pub trip_count : Number
  pub messages_per_second : Number
  pub total_revenue : Number
  pub avg_fare : Number
  pub avg_distance_miles : Number
  pub window_ended_at : Text

pub data StreamFrame (Number : Type 0) : Type 0 where
  trip : TripEvent Number → StreamFrame Number
  window : WindowAggregate Number → StreamFrame Number

pub data ConnectionStatus : Type 0 where
  connecting live disconnected : ConnectionStatus

pub record ApiTripEvent (Number : Type 0) : Type 0 where
  pub tpep_pickup_datetime : Text
  pub tpep_dropoff_datetime : Text
  pub pu_location_id : Number
  pub do_location_id : Number
  pub passenger_count : Number
  pub trip_distance : Number
  pub fare_amount : Number
  pub tip_amount : Number
  pub total_amount : Number
  pub payment_type : Number

pub record ApiWindowAggregate (Number : Type 0) : Type 0 where
  pub trip_count : Number
  pub messages_per_second : Number
  pub total_revenue : Number
  pub avg_fare : Number
  pub avg_distance : Number
  pub window_ended_at : Text

-- What `JSON.parse` and the reading of `type` give; `malformed` makes the handler's body throw.
pub data ApiFrame (Number : Type 0) : Type 0 where
  malformed : ApiFrame Number
  other : ApiFrame Number
  trip : ApiTripEvent Number → ApiFrame Number
  window : ApiWindowAggregate Number → ApiFrame Number

module _ {Number : Type 0} where
  unfoldable pub map_trip : ApiTripEvent Number → TripEvent Number
  map_trip api = record {
    pickup_at = api.tpep_pickup_datetime;
    dropoff_at = api.tpep_dropoff_datetime;
    pickup_location_id = api.pu_location_id;
    dropoff_location_id = api.do_location_id;
    passenger_count = api.passenger_count;
    trip_distance_miles = api.trip_distance;
    fare_amount = api.fare_amount;
    tip_amount = api.tip_amount;
    total_amount = api.total_amount;
    payment_type = api.payment_type;
  }

  unfoldable pub map_window : ApiWindowAggregate Number → WindowAggregate Number
  map_window api = record {
    trip_count = api.trip_count;
    messages_per_second = api.messages_per_second;
    total_revenue = api.total_revenue;
    avg_fare = api.avg_fare;
    avg_distance_miles = api.avg_distance;
    window_ended_at = api.window_ended_at;
  }

  -- The body of `onmessage`: the frame handed to `onFrame`, or nothing.
  unfoldable pub translate : ApiFrame Number → Option (StreamFrame Number)
  translate malformed = none
  translate other = none
  translate (ApiFrame.trip api) = some (StreamFrame.trip (map_trip api))
  translate (ApiFrame.window api) = some (StreamFrame.window (map_window api))
